-- ===== src/Updater/Loop.antt =====
-- What the updater writes, and what it counts.
use kinetic_atlas.Base.{
  ℕ, suc, ◌+◌, ◌*◌, ◌≡◌, inl, inr, refl, ap, sym, ◌∙◌, subst, List, [], ◌∷◌, ◌++◌, arith, length,
  In, Option-cases, Result, ok, err, bind-eq-ok,
}
use kinetic_atlas.Text.{Str, Str_eq, str, Bytes}
use kinetic_atlas.Error.{AtlasError}
use kinetic_atlas.Updater.{
  GitHubContent, Remote, Written, Checked, skipped, failed, verified, Outcome, unchanged, stopped,
  wrote, counted, or_failed, check_item, write_checked, update_items, public_key_of, listing_of,
  ensure_dir, fetch_listing, update_listing, fetch_and_update,
}
use kinetic_atlas.Updater.Verified.{IsVerified, check_item-IsVerified, or_failed-eq}

module _ {Key Response : Type 0} (remote : Remote Key Response) (key : Key) (out_dir : Str) where
  IsVerified-later :
      (item : GitHubContent) (items : List GitHubContent) (w : Written)
      → IsVerified remote key items w
      → IsVerified remote key (item ∷ items) w
  IsVerified-later item items w v = record {
    item = v.item;
    listed = inr v.listed;
    is_file = v.is_file;
    is_json = v.is_json;
    named = v.named;
    url = v.url;
    has_url = v.has_url;
    request = v.request;
    is_signed = v.is_signed;
  }

  abbrev written_as : Str → Bytes → Written
  written_as name bytes = record { out_dir = out_dir; name = name; bytes = bytes }

  -- The outcome of an item, by cases.
  write_checked-wrote :
      (name : Str) (c : Checked) (w : Written)
      → write_checked remote out_dir name c ≡ wrote w
      → (bytes : Bytes) × (c ≡ verified bytes) × (written_as name bytes ≡ w)
  write_checked-wrote name skipped w h = cc
  write_checked-wrote name (failed e) w h = cc
  write_checked-wrote name (verified bytes) w h =
      elim (Option-cases (remote.write_error out_dir name)) [
        | inl e ↦ (bytes, refl, ground arith)
        | inr (t, e) ↦ absurd (ground arith)
      ]

  abbrev outcome_of : ℕ → GitHubContent → Outcome
  outcome_of n item = write_checked remote out_dir item.name (check_item remote key n item)

  data OutcomeCase (o : Outcome) : Type 0 where
    case_unchanged : o ≡ unchanged → OutcomeCase o
    case_stopped : (e : AtlasError) → o ≡ stopped e → OutcomeCase o
    case_wrote : (w : Written) → o ≡ wrote w → OutcomeCase o

  outcome_case : (o : Outcome) → OutcomeCase o
  outcome_case unchanged = case_unchanged refl
  outcome_case (stopped e) = case_stopped e refl
  outcome_case (wrote w) = case_wrote w refl

  update_items-IsVerified :
      (n count : ℕ) (items : List GitHubContent) (w : Written)
      → In w (update_items remote key out_dir n count items).0
      → IsVerified remote key items w × (w.out_dir ≡ out_dir)
  unfolding update_items
  update_items-IsVerified n count [] w h = absurd h.lower
  update_items-IsVerified n count (item ∷ items) w h = elim (outcome_case (outcome_of n item)) [
    | case_unchanged o ↦
        let (v, d) =
          update_items-IsVerified (suc (suc n)) (counted (outcome_of n item) count) items w
            (rw (o, update_items) at h) in
        (IsVerified-later item items w v, d)
    | case_stopped e o ↦ absurd ((rw (o, update_items) at h).lower)
    | case_wrote w' o ↦ elim (rw (o, update_items) at h) [
      | inr later ↦
          let (v, d) =
            update_items-IsVerified (suc (suc n)) (counted (outcome_of n item) count) items w
              later in
          (IsVerified-later item items w v, d)
      | inl same ↦
          let (bytes, c, e) = write_checked-wrote item.name (check_item remote key n item) w' o in
          let e' : written_as item.name bytes ≡ w = e ∙ sym same in
          (
            subst (IsVerified remote key (item ∷ items)) e'
                (check_item-IsVerified remote key out_dir n item items bytes c),
            ap (λ (x : Written). x.out_dir) (sym e'),
          )
    ]
  ]

  update_items-count :
      (n count : ℕ) (items : List GitHubContent) (total : ℕ)
      → (update_items remote key out_dir n count items).1 ≡ ok total
      → total ≡ count + length (update_items remote key out_dir n count items).0
  unfolding update_items
  update_items-count n count [] total h = ground arith
  update_items-count n count (item ∷ items) total h = elim (outcome_case (outcome_of n item)) [
    | case_unchanged o ↦
        let rest =
          update_items-count (suc (suc n)) (counted (outcome_of n item) count) items total
            (rw (o, update_items) at h) in
        let now = ap (λ (x : Outcome). counted x count) o in
        rw (o, update_items) (omega (arith, rest, now))
    | case_stopped e o ↦ absurd (ground arith)
    | case_wrote w o ↦
        let rest =
          update_items-count (suc (suc n)) (counted (outcome_of n item) count) items total
            (rw (o, update_items) at h) in
        let now = ap (λ (x : Outcome). counted x count) o in
        rw (o, update_items) (omega (arith, rest, now))
  ]

  -- Where the loop does not fail, every item that is verified is written.
  update_items_complete :
      (n count : ℕ) (front : List GitHubContent) (item : GitHubContent) (back : List GitHubContent)
      (total : ℕ) (bytes : Bytes)
      → (update_items remote key out_dir n count (front ++ item ∷ back)).1 ≡ ok total
      → check_item remote key (n + 2 * length front) item ≡ verified bytes
      → In
          (written_as item.name bytes)
          (update_items remote key out_dir n count (front ++ item ∷ back)).0
  unfolding update_items
  update_items_complete n count [] item back total bytes h c =
      let at : n + 2 * length {A = GitHubContent} [] ≡ n = omega arith in
      let c' = subst (λ (k : ℕ). check_item remote key k item ≡ verified bytes) at c in
      elim (Option-cases (remote.write_error out_dir item.name)) [
        | inl e ↦ rw (c', e, update_items) (inl refl)
        | inr (t, e) ↦ absurd (ground arith)
      ]
  update_items_complete n count (i ∷ front) item back total bytes h c =
      let at : n + 2 * length (i ∷ front) ≡ suc (suc n) + 2 * length front = omega arith in
      let c' = subst (λ (k : ℕ). check_item remote key k item ≡ verified bytes) at c in
      elim (outcome_case (outcome_of n i)) [
        | case_unchanged o ↦
            rw (o, update_items)
              (update_items_complete (suc (suc n)) (counted (outcome_of n i) count) front item back
                total bytes (rw (o, update_items) at h) c')
        | case_stopped e o ↦ absurd (ground arith)
        | case_wrote w o ↦
            rw (o, update_items)
              (inr (
                update_items_complete (suc (suc n)) (counted (outcome_of n i) count) front item back
                  total bytes (rw (o, update_items) at h) c'))
      ]

module _ {Key Response : Type 0} (remote : Remote Key Response) (pubkey_hex url out_dir : Str) where
  -- The key that the configuration holds in hexadecimal.
  pub record IsKey (key : Key) : Type 0 where
    pub pubkey_bytes : Bytes
    pub decoded : remote.hex_decode pubkey_hex ≡ ok pubkey_bytes
    pub from_bytes : remote.try_from_bytes pubkey_bytes ≡ ok key

  public_key_of-IsKey : (key : Key) → public_key_of remote pubkey_hex ≡ ok key → IsKey key
  public_key_of-IsKey key h =
      let (b, d, k) =
        bind-eq-ok (or_failed (str "Invalid public key hex: ") (remote.hex_decode pubkey_hex)) _
          h in
      record {
        pubkey_bytes = b;
        decoded = or_failed-eq (str "Invalid public key hex: ") (remote.hex_decode pubkey_hex) d;
        from_bytes = or_failed-eq (str "Invalid public key bytes: ") (remote.try_from_bytes b) k;
      }

  -- The listing that an update goes through, and its key.
  pub record Listing (key : Key) (items : List GitHubContent) : Type 0 where
    pub is_key : IsKey key
    pub listed : fetch_listing remote pubkey_hex url out_dir ≡ ok (key, items)

  fetch_listing-Listing :
      (key : Key) (items : List GitHubContent)
      → fetch_listing remote pubkey_hex url out_dir ≡ ok (key, items)
      → Listing key items
  unfolding fetch_listing
  fetch_listing-Listing key items h =
      let (k, ek, h1) = bind-eq-ok (public_key_of remote pubkey_hex) _ h in
      let (contents, _, h2) = bind-eq-ok (listing_of remote url) _ h1 in
      let (there, _, h3) = bind-eq-ok (ensure_dir remote out_dir contents) _ h2 in
      let same : k ≡ key = ground arith in
      record { is_key = public_key_of-IsKey key (ek ∙ ap ok same); listed = h }

  -- A file that an update writes goes into the networks directory under the name that an item of the
  -- listing has, which ends with ".json", and a signature that was served beside the file verifies its
  -- bytes with the configured key: nothing unsigned is written, even by an update that fails.
  pub fetch_and_update-IsVerified :
      (w : Written)
      → In w (fetch_and_update remote pubkey_hex url out_dir).0
      → (key : Key) × (items : List GitHubContent) × Listing key items
        × IsVerified remote key items w
        × (w.out_dir ≡ out_dir)
  unfolding fetch_and_update
  fetch_and_update-IsVerified w h = go (fetch_listing remote pubkey_hex url out_dir) refl h
    where
      go :
          (l : Result AtlasError (Key × List GitHubContent))
          → fetch_listing remote pubkey_hex url out_dir ≡ l
          → In w (update_listing remote out_dir l).0
          → (key : Key) × (items : List GitHubContent) × Listing key items
            × IsVerified remote key items w
            × (w.out_dir ≡ out_dir)
      go (err e) l i = absurd i.lower
      go (ok (key, items)) l i =
          let (v, d) = update_items-IsVerified remote key out_dir 1 0 items w i in
          (key, items, fetch_listing-Listing key items l, v, d)

  -- An update that succeeds counts the files that it has written.
  pub fetch_and_update-count :
      (count : ℕ)
      → (fetch_and_update remote pubkey_hex url out_dir).1 ≡ ok count
      → count ≡ length (fetch_and_update remote pubkey_hex url out_dir).0
  unfolding fetch_and_update
  fetch_and_update-count count h = go (fetch_listing remote pubkey_hex url out_dir) h
    where
      go :
          (l : Result AtlasError (Key × List GitHubContent))
          → (update_listing remote out_dir l).1 ≡ ok count
          → count ≡ length (update_listing remote out_dir l).0
      go (err e) k = cc
      go (ok (key, items)) k =
          omega (arith, update_items-count remote key out_dir 1 0 items count k)

  -- An update that succeeds has written every item of its listing whose bytes were verified.
  pub fetch_and_update_complete :
      (count : ℕ) (key : Key) (front : List GitHubContent) (item : GitHubContent)
      (back : List GitHubContent) (bytes : Bytes)
      → (fetch_and_update remote pubkey_hex url out_dir).1 ≡ ok count
      → fetch_listing remote pubkey_hex url out_dir ≡ ok (key, front ++ item ∷ back)
      → check_item remote key (1 + 2 * length front) item ≡ verified bytes
      → In
          (record { out_dir = out_dir; name = item.name; bytes = bytes })
          (fetch_and_update remote pubkey_hex url out_dir).0
  unfolding fetch_and_update
  fetch_and_update_complete count key front item back bytes h l c =
      rw l (update_items_complete remote key out_dir 1 0 front item back count bytes (rw l at h) c)
