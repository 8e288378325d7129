-- ===== src/Tests/Update.antt =====
-- src/updater.rs: an update of two files, one of which is signed, and rounds of the task.
use kinetic_atlas.Base.{
  ℕ, ◌+◌, ◌*◌, ◌&&◌, ◌≡◌, ◌⊎◌, ◌≤◌, inl, inr, refl, Bool, true, false, Option, none, some, List, [],
  ◌∷◌, ◌++◌, arith, All, In, length, Result, ok, err, ◌==◌, if◌then◌else◌,
}
use kinetic_atlas.Text.{Str, Str_eq, str, Bytes}
use kinetic_atlas.Error.{AtlasError, updater_failed}
use kinetic_atlas.Updater.{GitHubContent, Remote, Written, fetch_and_update, hour, min, Task, run}
use kinetic_atlas.Updater.Verified.{IsVerified}
use kinetic_atlas.Updater.Loop.{Listing, fetch_and_update-IsVerified, fetch_and_update_complete}
use kinetic_atlas.Updater.Backoff.{doubled, run-backoff}

abbrev item : Str → GitHubContent
item name = record { name = name; download_url = some name; item_type = str "file" }

abbrev items : List GitHubContent
items = item (str "kin.json") ∷ item (str "evil.json") ∷ item (str "ATLAS.md") ∷ []

-- A response is its URL, which is also its body; the signature of "kin.json" is its own, and the other
-- one's is not.
abbrev signs : Str → Str → Bool
signs bytes sig = (bytes == str "kin.json") && (sig == str "kin.json.sig")

abbrev remote : Remote Str Str
remote = record {
  hex_decode = λ text. ok text;
  try_from_bytes = λ bytes. ok bytes;
  verify = λ key bytes sig. signs bytes sig;
  send = λ n url. ok url;
  error_for_status = λ resp. ok resp;
  json = λ resp. ok items;
  bytes = λ resp. ok resp;
  from_utf8_lossy = λ bytes. bytes;
  exists = λ dir. true;
  create_dir_error = λ dir. none;
  write_error = λ dir name. none;
}

abbrev kin_file : Written
kin_file = record { out_dir = str "networks"; name = str "kin.json"; bytes = str "kin.json" }

kin-written : In kin_file (fetch_and_update remote (str "key") (str "url") (str "networks")).0
unfolding fetch_and_update kinetic_atlas.Base.list_eq kinetic_atlas.Text.ends_with
    kinetic_atlas.Text.trim
kin-written = inl refl

fetch_and_update-IsVerified_example :
    (key : Str) × (listed : List GitHubContent) × Listing remote
      (str "key")
      (str "url")
      (str "networks")
      key
      listed
    × IsVerified remote key listed kin_file
    × (kin_file.out_dir ≡ str "networks")
fetch_and_update-IsVerified_example =
    fetch_and_update-IsVerified remote (str "key") (str "url") (str "networks") kin_file kin-written

fetch_and_update_complete_example :
    In kin_file (fetch_and_update remote (str "key") (str "url") (str "networks")).0
unfolding fetch_and_update kinetic_atlas.Base.list_eq kinetic_atlas.Text.ends_with
    kinetic_atlas.Text.trim
fetch_and_update_complete_example =
    fetch_and_update_complete remote (str "key") (str "url") (str "networks") 1 (str "key") []
      (item (str "kin.json")) (item (str "evil.json") ∷ item (str "ATLAS.md") ∷ []) (str "kin.json")
      refl refl refl

abbrev failure : Result AtlasError ℕ
failure = err (updater_failed (str "timeout"))

abbrev first_task : Task
first_task = record { fail_delay = hour; registry = record { networks = [] } }

abbrev rounds : List (Result AtlasError ℕ)
rounds = failure ∷ ok 2 ∷ failure ∷ failure ∷ []

run-backoff_example :
    (run (λ reg. reg) ((failure ∷ []) ++ ok 2 ∷ (failure ∷ failure ∷ [])) first_task).1.fail_delay
    ≡ min (doubled 2 hour) (24 * hour)
run-backoff_example =
    run-backoff (λ reg. reg) (failure ∷ []) (failure ∷ failure ∷ []) 2 first_task tt
