-- ===== src/Updater/Verified.antt =====
-- What the check of an item shows of its bytes.
use kinetic_atlas.Base.{
  ℕ, suc, ◌≡◌, inl, inr, refl, subst, true, ◌&&◌, some, List, ◌∷◌, ◌++◌, arith, In, Option-cases,
  Bool-cases, ◌==◌, Result, ok, err, bind-eq-ok,
}
use kinetic_atlas.Text.{Str, Str_eq, str, Bytes, ends_with}
use kinetic_atlas.Error.{AtlasError}
use kinetic_atlas.Updater.{
  GitHubContent, Remote, Written, verified, or_failed, body_of, signature_bytes, check_signature,
  check_signature_body, check_signature_response, check_file_body, check_file, check_item,
}

pub or_failed-eq :
    {A : Type 0} (text : Str) (r : Result Str A) {x : A} → or_failed text r ≡ ok x → r ≡ ok x
or_failed-eq text (ok y) h = ground arith
or_failed-eq text (err e) h = cc

module _ {Key Response : Type 0} (remote : Remote Key Response) (key : Key) where
  -- The bytes of a URL, as the server gave them with a good status.
  pub record Served (n : ℕ) (url : Str) (bytes : Bytes) : Type 0 where
    pub resp : Response
    pub sent : remote.send n url ≡ ok resp
    pub good : Response
    pub status : remote.error_for_status resp ≡ ok good
    pub read : remote.bytes good ≡ ok bytes

  -- A signature of the bytes stands, in hexadecimal, under the URL with ".sig" behind it.
  pub record IsSigned (n : ℕ) (url : Str) (bytes : Bytes) : Type 0 where
    pub file : Served n url bytes
    pub sig_hex_bytes : Bytes
    pub sig_file : Served (suc n) (url ++ str ".sig") sig_hex_bytes
    pub sig_bytes : Bytes
    pub decoded : signature_bytes remote sig_hex_bytes ≡ ok sig_bytes
    pub verifies : remote.verify key bytes sig_bytes ≡ true

  body_of-Served :
      (n : ℕ) (url text : Str) (resp : Response) (bytes : Bytes)
      → remote.send n url ≡ ok resp
      → body_of remote text resp ≡ ok bytes
      → Served n url bytes
  body_of-Served n url text resp bytes sent h =
      let (good, g, b) = bind-eq-ok (or_failed text (remote.error_for_status resp)) _ h in
      record {
        resp = resp;
        sent = sent;
        good = good;
        status = or_failed-eq text (remote.error_for_status resp) g;
        read = or_failed-eq (str "") (remote.bytes good) b;
      }

  check_signature_sound :
      (file_bytes bytes : Bytes) (sig : Result Str Bytes)
      → check_signature remote key file_bytes sig ≡ verified bytes
      → (sig_bytes : Bytes) × (sig ≡ ok sig_bytes)
        × (remote.verify key file_bytes sig_bytes ≡ true)
        × (file_bytes ≡ bytes)
  check_signature_sound file_bytes bytes (err e) h = cc
  check_signature_sound file_bytes bytes (ok sig_bytes) h =
      (sig_bytes, refl, ground arith, ground arith)

  module _ (n : ℕ) (name url : Str) (bytes : Bytes) where
    signature-IsSigned :
        (file_bytes : Bytes)
        → Served n url file_bytes
        → (r : Result Str Response) → remote.send (suc n) (url ++ str ".sig") ≡ r
        → check_signature_response remote key name file_bytes r ≡ verified bytes
        → IsSigned n url bytes
    signature-IsSigned file_bytes file (err e) sent h = cc
    signature-IsSigned file_bytes file (ok sig_resp) sent h =
        at_body (body_of remote (str "Missing signature for " ++ name ++ str ": ") sig_resp) refl h
      where
        at_body :
            (b : Result AtlasError Bytes)
            → body_of remote (str "Missing signature for " ++ name ++ str ": ") sig_resp ≡ b
            → check_signature_body remote key file_bytes b ≡ verified bytes
            → IsSigned n url bytes
        at_body (err e) eb k = cc
        at_body (ok sig_hex_bytes) eb k =
            let (sig_bytes, d, v, same) =
              check_signature_sound file_bytes bytes (signature_bytes remote sig_hex_bytes) k in
            subst (IsSigned n url) same (record {
              file = file;
              sig_hex_bytes = sig_hex_bytes;
              sig_file =
                  body_of-Served (suc n) (url ++ str ".sig")
                    (str "Missing signature for " ++ name ++ str ": ") sig_resp sig_hex_bytes sent
                    eb;
              sig_bytes = sig_bytes;
              decoded = d;
              verifies = v;
            })

    check_file-IsSigned :
        (r : Result Str Response)
        → remote.send n url ≡ r
        → check_file remote key n name url r ≡ verified bytes
        → IsSigned n url bytes
    check_file-IsSigned (err e) sent h = cc
    check_file-IsSigned (ok file_resp) sent h = at_body (body_of remote (str "") file_resp) refl h
      where
        at_body :
            (b : Result AtlasError Bytes)
            → body_of remote (str "") file_resp ≡ b
            → check_file_body remote key n name url b ≡ verified bytes
            → IsSigned n url bytes
        at_body (err e) eb k = cc
        at_body (ok file_bytes) eb k =
            signature-IsSigned file_bytes
              (body_of-Served n url (str "") file_resp file_bytes sent eb)
              (remote.send (suc n) (url ++ str ".sig")) refl k

  -- A file that is written: an item of the listing names it, and its bytes are signed with the key.
  pub record IsVerified (items : List GitHubContent) (w : Written) : Type 0 where
    pub item : GitHubContent
    pub listed : In item items
    pub is_file : item.item_type ≡ str "file"
    pub is_json : ends_with (str ".json") item.name ≡ true
    pub named : w.name ≡ item.name
    pub url : Str
    pub has_url : item.download_url ≡ some url
    pub request : ℕ
    pub is_signed : IsSigned request url w.bytes

  pub check_item-IsVerified :
      (out_dir : Str) (n : ℕ) (item : GitHubContent) (items : List GitHubContent) (bytes : Bytes)
      → check_item remote key n item ≡ verified bytes
      → IsVerified (item ∷ items) (record { out_dir = out_dir; name = item.name; bytes = bytes })
  unfolding check_item
  check_item-IsVerified out_dir n item items bytes h =
      elim (Bool-cases (item.item_type == str "file" && ends_with (str ".json") item.name)) [
        | inr no_file ↦ absurd (ground arith)
        | inl file ↦ elim (Option-cases item.download_url) [
          | inl no_url ↦ absurd (ground arith)
          | inr (url, u) ↦ record {
            item = item;
            listed = inl refl;
            is_file = (Str_eq.equal_iff item.item_type (str "file")).0 (ground arith);
            is_json = ground arith;
            named = refl;
            url = url;
            has_url = u;
            request = n;
            is_signed =
                check_file-IsSigned n item.name url bytes (remote.send n url) refl (ground arith);
          }
        ]
      ]
