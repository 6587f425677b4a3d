-- ===== src/Storage/CloudAuth.antt =====
-- internal/storage/secret.go: `PrepareCloudAuth` puts decrypted credentials into the environment, and its
-- cleanup takes them out again. The environment and the files are functions; the package libsecsecrets
-- and the calls of the system are answers. The zeroing of memory is left out.
pub mod Undone
pub mod Restored
use dtreesync.Base.{
  Text, ℕ, Bool, true, false, not, ◌&&◌, Option, none, some, List, [], ◌∷◌, ◌++◌, ◌==◌, text_eq,
  if◌then◌else◌,
}
use dtreesync.Base.Strings.{codes}
use dtreesync.Base.GoPath.{clean}

-- The environment of the process, and which temporary files there are.
pub record Process : Type 0 where
  pub vars : Text → Option Text
  pub files : Text → Bool

pub record System : Type 0 where
  pub is_encrypted : Text → Bool
  -- With the master key, if there is one of 32 bytes.
  pub decrypt : Text → Option Text
  pub has_key : Bool
  -- `Stat` and `ReadFile` of the credentials file.
  pub read_file : Text → Option Text
  -- `CreateTemp`, which gives a clean path, and whether the file can be written.
  pub create_temp : Option Text
  pub can_write : Bool
  -- `Remove` of a file succeeds; its error is dropped.
  pub can_remove : Text → Bool

-- `envRestore`; no file stands for an empty path.
pub record EnvRestore : Type 0 where
  pub key : Text
  pub old_val : Text
  pub existed : Bool
  pub temp_file : Option Text

abbrev pub setenv : Text → Text → Process → Process
setenv k v p = record p { vars = λ j. if j == k then some v else p.vars j }

abbrev pub unsetenv : Text → Process → Process
unsetenv k p = record p { vars = λ j. if j == k then none else p.vars j }

abbrev pub create : Text → Process → Process
create f p = record p { files = λ g. if g == f then true else p.files g }

abbrev pub remove : System → Text → Process → Process
remove sys f p = record p { files = λ g. if g == f && sys.can_remove f then false else p.files g }

abbrev pub remove_temp : System → Option Text → Process → Process
remove_temp sys none p = p
remove_temp sys (some f) p = remove sys f p

abbrev pub restore_var : EnvRestore → Process → Process
restore_var r p = if r.existed then setenv r.key r.old_val p else unsetenv r.key p

-- The closure `cleanup`.
unfoldable pub cleanup : System → List EnvRestore → Process → Process
cleanup sys [] p = p
cleanup sys (r ∷ rs) p = cleanup sys rs (restore_var r (remove_temp sys r.temp_file p))

-- The process with what is to be restored; after an error, with nothing to restore.
pub data Prepared : Type 0 where
  ready : List EnvRestore → Process → Prepared
  failed : Process → Prepared

abbrev pub then_prepare : (List EnvRestore → Process → Prepared) → Prepared → Prepared
then_prepare next (ready rs p) = next rs p
then_prepare next (failed p) = failed p

-- An error: what was done is undone.
abbrev pub give_up : System → List EnvRestore → Process → Prepared
give_up sys rs p = failed (cleanup sys rs p)

abbrev pub replaced : System → Text → Text → List EnvRestore → Process → Option Text → Prepared
replaced sys k old rs p none = give_up sys rs p
replaced sys k old rs p (some new) =
    ready (rs ++ (record { key = k; old_val = old; existed = true; temp_file = none } ∷ []))
      (setenv k new p)

abbrev pub decrypt_var : System → Text → Text → List EnvRestore → Process → Prepared
decrypt_var sys k old rs p =
    if sys.has_key then replaced sys k old rs p (sys.decrypt old) else give_up sys rs p

abbrev pub check_var : System → Text → List EnvRestore → Process → Option Text → Prepared
check_var sys k rs p none = ready rs p
check_var sys k rs p (some old) =
    if not (old == []) && sys.is_encrypted old then decrypt_var sys k old rs p else ready rs p

-- `checkAndDecryptEnv`
unfoldable pub check_and_decrypt_env : System → Text → List EnvRestore → Process → Prepared
unfolding cleanup
check_and_decrypt_env sys k rs p = check_var sys k rs p (p.vars k)

unfoldable pub check_all : System → List Text → List EnvRestore → Process → Prepared
unfolding check_and_decrypt_env
check_all sys [] rs p = ready rs p
check_all sys (k ∷ ks) rs p = then_prepare (check_all sys ks) (check_and_decrypt_env sys k rs p)

abbrev pub google : Text
google = codes "GOOGLE_APPLICATION_CREDENTIALS"

abbrev pub secret_vars : List Text
secret_vars =
    codes "AWS_SECRET_ACCESS_KEY"
    ∷ codes "AWS_SESSION_TOKEN"
    ∷ codes "AZURE_STORAGE_KEY"
    ∷ codes "AZURE_STORAGE_SAS_TOKEN"
    ∷ []

-- The decrypted credentials in a temporary file.
abbrev pub in_temp : System → Text → List EnvRestore → Process → Option Text → Prepared
in_temp sys old rs p none = give_up sys rs p
in_temp sys old rs p (some f) =
    if sys.can_write
    then ready
        (rs ++ (record { key = google; old_val = old; existed = true; temp_file = some f } ∷ []))
        (setenv google f (create f p))
    else give_up sys rs (remove sys f (create f p))

abbrev pub file_decrypted : System → Text → List EnvRestore → Process → Option Text → Prepared
file_decrypted sys old rs p none = give_up sys rs p
file_decrypted sys old rs p (some _) = in_temp sys old rs p sys.create_temp

abbrev pub check_content : System → Text → List EnvRestore → Process → Option Text → Prepared
check_content sys old rs p none = ready rs p
check_content sys old rs p (some content) =
    if not (sys.is_encrypted content)
    then ready rs p
    else if sys.has_key
    then file_decrypted sys old rs p (sys.decrypt content)
    else give_up sys rs p

abbrev pub google_found : System → List EnvRestore → Process → Option Text → Prepared
google_found sys rs p none = ready rs p
google_found sys rs p (some old) =
    if old == []
    then ready rs p
    else if sys.is_encrypted old
    then decrypt_var sys google old rs p
    else check_content sys old rs p (sys.read_file old)

unfoldable pub check_google : System → List EnvRestore → Process → Prepared
unfolding cleanup
check_google sys rs p = google_found sys rs p (p.vars google)

unfoldable pub prepare_cloud_auth : System → Process → Prepared
unfolding check_all check_google
prepare_cloud_auth sys p = then_prepare (check_google sys) (check_all sys secret_vars [] p)
