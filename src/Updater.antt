-- ===== src/Updater.antt =====
-- src/updater.rs: the update of the network files from a repository, and the task that repeats it.
pub mod Verified
pub mod Loop
pub mod Backoff
use kinetic_atlas.Base.{
  ℕ, suc, ◌+◌, ◌*◌, Bool, true, false, not, ◌&&◌, ◌||◌, Option, none, some, List, [], ◌∷◌, ◌++◌,
  is_empty, ltb, if◌then◌else◌, ◌==◌, Result, ok, err, ◌>>=◌,
}
use kinetic_atlas.Text.{Str, Str_eq, str, Bytes, ends_with, trim}
use kinetic_atlas.Types.{AtlasConfig, NetworkConfig}
use kinetic_atlas.Error.{AtlasError, updater_failed}
use kinetic_atlas.Registry.{TldRegistry, Dir, load_from_dir}

pub record GitHubContent : Type 0 where
  pub name : Str
  pub download_url : Option Str
  pub item_type : Str

-- What the updater gets from other crates, from the network and from the file system. An error is its
-- text; `send` takes the number of the request.
pub record Remote (Key Response : Type 0) : Type 0 where
  -- `hex::decode`, `PublicKey::try_from_bytes` and `PublicKey::verify`
  pub hex_decode : Str → Result Str Bytes
  pub try_from_bytes : Bytes → Result Str Key
  pub verify : Key → Bytes → Bytes → Bool
  -- `client.get(url).send()`, and the methods of its response.
  pub send : ℕ → Str → Result Str Response
  pub error_for_status : Response → Result Str Response
  pub json : Response → Result Str (List GitHubContent)
  pub bytes : Response → Result Str Bytes
  pub from_utf8_lossy : Bytes → Str
  -- `out_dir.exists()`, and the errors of `create_dir_all` and `write`.
  pub exists : Str → Bool
  pub create_dir_error : Str → Option Str
  pub write_error : Str → Str → Option Str

-- A file that was written: its directory and name, which `Path::join` puts together, and its bytes.
pub record Written : Type 0 where
  pub out_dir : Str
  pub name : Str
  pub bytes : Bytes

-- What an item of the listing comes to.
pub data Checked : Type 0 where
  skipped : Checked
  failed : AtlasError → Checked
  verified : Bytes → Checked

-- What an item changes: nothing, or a file; or the loop stops at it.
pub data Outcome : Type 0 where
  unchanged : Outcome
  stopped : AtlasError → Outcome
  wrote : Written → Outcome

abbrev pub counted : Outcome → ℕ → ℕ
counted (wrote _) count = suc count
counted _ count = count

-- `map_err` with a text in front of the error's own.
abbrev pub or_failed : {A : Type 0} → Str → Result Str A → Result AtlasError A
or_failed text (ok a) = ok a
or_failed text (err e) = err (updater_failed (text ++ e))

module _ {Key Response : Type 0} (remote : Remote Key Response) where
  -- The bytes of a response that came, with the text for a bad status.
  abbrev pub body_of : Str → Response → Result AtlasError Bytes
  body_of text resp = do
    good ← or_failed text (remote.error_for_status resp)
    or_failed (str "") (remote.bytes good)

  abbrev pub signature_bytes : Bytes → Result Str Bytes
  signature_bytes sig_hex_bytes = remote.hex_decode (trim (remote.from_utf8_lossy sig_hex_bytes))

  abbrev pub check_signature : Key → Bytes → Result Str Bytes → Checked
  check_signature key file_bytes (err e) = skipped
  check_signature key file_bytes (ok sig_bytes) =
      if remote.verify key file_bytes sig_bytes then verified file_bytes else skipped

  abbrev pub check_signature_body : Key → Bytes → Result AtlasError Bytes → Checked
  check_signature_body key file_bytes (err e) = failed e
  check_signature_body key file_bytes (ok sig_hex_bytes) =
      check_signature key file_bytes (signature_bytes sig_hex_bytes)

  abbrev pub check_signature_response : Key → Str → Bytes → Result Str Response → Checked
  check_signature_response key name file_bytes (err e) = skipped
  check_signature_response key name file_bytes (ok sig_resp) =
      check_signature_body key file_bytes
        (body_of (str "Missing signature for " ++ name ++ str ": ") sig_resp)

  abbrev pub check_file_body : Key → ℕ → Str → Str → Result AtlasError Bytes → Checked
  check_file_body key n name download_url (err e) = failed e
  check_file_body key n name download_url (ok file_bytes) =
      check_signature_response key name file_bytes
        (remote.send (suc n) (download_url ++ str ".sig"))

  abbrev pub check_file : Key → ℕ → Str → Str → Result Str Response → Checked
  check_file key n name download_url (err e) = skipped
  check_file key n name download_url (ok file_resp) =
      check_file_body key n name download_url (body_of (str "") file_resp)

  -- The body of the loop up to the write, for the item whose first request has the number `n`.
  unfoldable pub check_item : Key → ℕ → GitHubContent → Checked
  check_item key n item =
      if item.item_type == str "file" && ends_with (str ".json") item.name
      then elim item.download_url [
        | none ↦ skipped
        | some download_url ↦ check_file key n item.name download_url (remote.send n download_url)
      ]
      else skipped

  -- A write that fails ends the update; what it may have left of the file is not recorded.
  abbrev pub write_checked : Str → Str → Checked → Outcome
  write_checked out_dir name skipped = unchanged
  write_checked out_dir name (failed e) = stopped e
  write_checked out_dir name (verified file_bytes) = elim (remote.write_error out_dir name) [
    | some e ↦
        stopped (updater_failed (str "Failed to write verified file " ++ name ++ str ": " ++ e))
    | none ↦ wrote (record { out_dir = out_dir; name = name; bytes = file_bytes })
  ]

  -- The loop over the listing, with the count so far: the files that are written, in order, and the count.
  unfoldable pub update_items :
      Key → Str → ℕ → ℕ → List GitHubContent → List Written × Result AtlasError ℕ
  update_items key out_dir n count [] = ([], ok count)
  update_items key out_dir n count (item ∷ items) =
      let outcome = write_checked out_dir item.name (check_item key n item) in
      let rest = update_items key out_dir (suc (suc n)) (counted outcome count) items in
      elim outcome [ unchanged ↦ rest | stopped e ↦ ([], err e) | wrote w ↦ (w ∷ rest.0, rest.1) ]

  abbrev pub public_key_of : Str → Result AtlasError Key
  public_key_of pubkey_hex = do
    pubkey_bytes ← or_failed (str "Invalid public key hex: ") (remote.hex_decode pubkey_hex)
    or_failed (str "Invalid public key bytes: ") (remote.try_from_bytes pubkey_bytes)

  abbrev pub listing_of : Str → Result AtlasError (List GitHubContent)
  listing_of url = do
    resp ← or_failed (str "") (remote.send 0 url)
    good ← or_failed (str "") (remote.error_for_status resp)
    or_failed (str "") (remote.json good)

  abbrev pub ensure_dir : Str → List GitHubContent → Result AtlasError (List GitHubContent)
  ensure_dir out_dir contents =
      if remote.exists out_dir then ok contents else elim (remote.create_dir_error out_dir) [
        | none ↦ ok contents
        | some e ↦
            err (
              updater_failed (str "Failed to create output directory " ++ out_dir ++ str ": " ++ e))
      ]

  abbrev pub with_key :
      Str → List GitHubContent → Key → Result AtlasError (Key × List GitHubContent)
  with_key out_dir contents key = ok (key, contents)

  -- What precedes the loop: the key, and the listing, once the directory is there.
  unfoldable pub fetch_listing : Str → Str → Str → Result AtlasError (Key × List GitHubContent)
  fetch_listing pubkey_hex url out_dir = do
    key ← public_key_of pubkey_hex
    contents ← listing_of url
    there ← ensure_dir out_dir contents
    with_key out_dir there key

  abbrev pub update_listing :
      Str → Result AtlasError (Key × List GitHubContent) → List Written × Result AtlasError ℕ
  update_listing out_dir (err e) = ([], err e)
  update_listing out_dir (ok (key, contents)) = update_items key out_dir 1 0 contents

  unfoldable pub fetch_and_update : Str → Str → Str → List Written × Result AtlasError ℕ
  unfolding update_items fetch_listing check_item
  fetch_and_update pubkey_hex url out_dir =
      update_listing out_dir (fetch_listing pubkey_hex url out_dir)

-- The two guards of `start_auto_updater`: the URL and the key with which the task runs.
unfoldable pub start_auto_updater : AtlasConfig → Option (Str × Str)
start_auto_updater config = elim config.registry_url [
  | none ↦ none
  | some url ↦ elim config.updater_public_key [
    | none ↦ none
    | some key ↦ if is_empty key then none else some (url, key)
  ]
]

abbrev pub hour : ℕ
hour = 60 * 60

abbrev pub min : ℕ → ℕ → ℕ
min a b = if ltb a b then a else b

-- The task between two rounds: the delay after the next failure, and the registry that it shares.
pub record Task : Type 0 where
  pub fail_delay : ℕ
  pub registry : TldRegistry

abbrev pub initial_delay : ℕ
initial_delay = hour

-- A round, by the result of `fetch_and_update`: the seconds that it sleeps, and the task after it.
-- `reload` is `load_from_dir` on the networks directory as it is then.
unfoldable pub round : (TldRegistry → TldRegistry) → Result AtlasError ℕ → Task → ℕ × Task
round reload (ok count) t = (24 * hour, record { fail_delay = hour; registry = reload t.registry })
round reload (err e) t = (
  t.fail_delay,
  record { fail_delay = min (t.fail_delay * 2) (24 * hour); registry = t.registry },
)

-- The rounds of the task, by their results: the delays after them, and the task at the end.
unfoldable pub run : (TldRegistry → TldRegistry) → List (Result AtlasError ℕ) → Task → List ℕ × Task
unfolding round
run reload [] t = ([], t)
run reload (r ∷ rs) t =
    let (delay, t') = round reload r t in
    let (delays, t'') = run reload rs t' in (delay ∷ delays, t'')
