-- ===== src/Samples/Credentials.antt =====
-- internal/storage/secret.go with an encrypted key and an encrypted credentials file.
use dtreesync.Base.{true, false, ◌||◌, none, some, refl, ◌==◌, text_eq, if◌then◌else◌}
use dtreesync.Base.Strings.{codes}
use dtreesync.Storage.CloudAuth.{Process, System, google, prepare_cloud_auth}
use dtreesync.Storage.CloudAuth.Undone.{after}
use dtreesync.Storage.CloudAuth.Restored.{IsRestored, prepare_cloud_auth-IsRestored}

abbrev process : Process
process = record {
  vars = λ k.
      if k == codes "AZURE_STORAGE_KEY"
      then some (codes "v1:gcm:key")
      else if k == google
      then some (codes "/etc/gcp.json")
      else none;
  files = λ _. false;
}

abbrev sys : System
sys = record {
  is_encrypted = λ s. s == codes "v1:gcm:key" || s == codes "v1:gcm:file";
  decrypt = λ _. some (codes "plain");
  has_key = true;
  read_file = λ _. some (codes "v1:gcm:file");
  create_temp = some (codes "/tmp/cred.json");
  can_write = true;
  can_remove = λ _. false;
}

prepare_cloud_auth-IsRestored_example :
    IsRestored sys (after sys (prepare_cloud_auth sys process)) process
prepare_cloud_auth-IsRestored_example = prepare_cloud_auth-IsRestored sys process (λ f h. refl)
