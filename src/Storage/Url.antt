-- ===== src/Storage/Url.antt =====
-- internal/storage/cloud.go and git.go: which URLs name a cloud store or a Git repository.
use dtreesync.Base.{Text, Bool, ◌||◌, ◌&&◌}
use dtreesync.Base.Strings.{codes, has_prefix, has_suffix, to_lower}

unfoldable pub is_cloud_url : Text → Bool
unfolding has_prefix
is_cloud_url raw_url =
    let lower = to_lower raw_url in
    has_prefix (codes "s3://") lower
    || has_prefix (codes "gs://") lower
    || has_prefix (codes "azblob://") lower
    || has_prefix (codes "file://") lower

unfoldable pub is_git_url : Text → Bool
unfolding has_prefix has_suffix
is_git_url raw_url =
    let lower = to_lower raw_url in
    has_prefix (codes "git://") lower
    || has_prefix (codes "git@") lower
    || has_prefix (codes "ssh://git@") lower
    || (has_prefix (codes "http://") lower && has_suffix (codes ".git") lower)
    || (has_prefix (codes "https://") lower && has_suffix (codes ".git") lower)
