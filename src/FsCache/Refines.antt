-- ===== src/FsCache/Refines.antt =====
-- The backend on files and the promises of the interface, on a system that fails no call.
use httpcache.Base.{
  ℕ, suc, ◌≡◌, refl, sym, ap, ◌∙◌, Bool, true, false, ◌&&◌, [], Option, none, some, if◌then◌else◌,
  length, All, Option-cases, inl, inr,
}
use httpcache.Bytes.{Bytes, str_eq}
use httpcache.Dict.{put-put}
use httpcache.FsCache.{
  FsCache, Disk, Os, Call, Method, getting, setting, deleting, decrypted, touched, encrypted,
  write_created, write_file, write_sealed, get, set, delete, get_in_time, set_in_time,
  delete_in_time, conn,
}
use httpcache.FsCache.Encrypt.{Aead, IsAead, decrypt, decrypt-encrypt}
use httpcache.FsCache.Files.{Tree, parents, read_file, mkdir_all, remove}
use httpcache.FsCache.Files.Laws.{
  IsApart, can_hold, placed, create-mkdir_all, read_file-placed, read_file-remove, remove_of_found,
  remove_of_absent,
}
use httpcache.FsCache.Namer.{fragment_file_name}
use httpcache.FsCache.Namer.RoundTrip.{fragment_file_name-injective}
use httpcache.Store.{Got, found, not_exist, failed, done, missing, IsConnAt}
use httpcache.Text.Base64.RoundTrip.{IsByte}

-- No call fails, a write is whole, the random source gives what is asked for, and every call ends in
-- time.
pub record IsQuiet (os : Os) : Type 0 where
  pub no_fault : (call : Call) (name : Bytes) (t : Tree) → os.fails call name t ≡ false
  pub whole : (name entry : Bytes) → os.torn name entry ≡ none
  pub nonce : (i n : ℕ) → (bytes : Bytes) × ((os.random i n ≡ some bytes) × (length bytes ≡ n))
  pub in_time : (m : Method) (key : Bytes) (d : Disk) → os.late m key d ≡ false

-- The encryptor, if there is one, is an AEAD.
abbrev pub IsSound : Option Aead → Type 0
IsSound none = Unit
IsSound (some gcm) = IsAead gcm

module _ (os : Os) (quiet : IsQuiet os) where
  write_file_quiet :
      (n v : Bytes) (t : Tree) → can_hold n t ≡ true → write_file os n v t ≡ (done, placed n v t)
  unfolding write_file write_created
  write_file_quiet n v t h =
      let t' = (mkdir_all (parents n) t).1 in
      let (made, created) = create-mkdir_all n t h in
      rw
        (
          made,
          created,
          quiet.no_fault _ n t,
          quiet.no_fault _ n t',
          quiet.whole n v,
          quiet.no_fault _ n (placed n [] t),
        )
        (ap (λ f. (done, record (placed n v t) { files = f })) (put-put n v [] t.files))

  -- What is written opens to the value.
  sealed_value :
      (enc : Option Aead) (v : Bytes) (d : Disk)
      → IsSound enc
      → (entry : Bytes) × ((n : ℕ) × ((encrypted os enc v d ≡ (some entry, record d { nonces = n }))
            × (decrypted enc (found entry) ≡ found v)))
  sealed_value none v d sound = (v, (d.nonces, (refl, refl)))
  sealed_value (some gcm) v d sound =
      let (bytes, (e, l)) = quiet.nonce d.nonces gcm.nonce_size in
      let (entry, (s, o)) = decrypt-encrypt gcm bytes v sound l in
      (entry, (suc d.nonces, (rw (e, s) refl, rw o refl)))

  -- Set writes one file.
  set_quiet :
      (c : FsCache) (k v : Bytes) (d : Disk)
      → IsSound c.enc
      → can_hold (fragment_file_name k) d.tree ≡ true
      → (entry : Bytes) × ((n : ℕ) × ((set os c k v d
              ≡ (done, record { tree = placed (fragment_file_name k) entry d.tree; nonces = n }))
            × (decrypted c.enc (found entry) ≡ found v)))
  unfolding set write_sealed
  set_quiet c k v d sound h =
      let (entry, (n, (e, o))) = sealed_value c.enc v d sound in
      (entry, (n, (rw (e, write_file_quiet (fragment_file_name k) entry d.tree h) refl, o)))

  touched_not : (b : Bool) (got : Got) → touched (b && false) got ≡ got
  touched_not true not_exist = refl
  touched_not true failed = refl
  touched_not true (found v) = refl
  touched_not false not_exist = refl
  touched_not false failed = refl
  touched_not false (found v) = refl

  get_quiet :
      (c : FsCache) (k : Bytes) (d : Disk)
      → get_in_time os c k d ≡ decrypted c.enc (read_file (fragment_file_name k) d.tree)
  unfolding get_in_time get
  get_quiet c k d =
      let name = fragment_file_name k in
      rw (quiet.in_time getting k d, quiet.no_fault _ name d.tree, quiet.no_fault _ name d.tree)
        (touched_not c.update_mtime (decrypted c.enc (read_file name d.tree)))

  delete_quiet :
      (c : FsCache) (k : Bytes) (d : Disk)
      → delete os c k d ≡ (
        (remove (fragment_file_name k) d.tree).0,
        record d { tree = (remove (fragment_file_name k) d.tree).1 },
      )
  unfolding delete
  delete_quiet c k d = rw (quiet.no_fault _ (fragment_file_name k) d.tree) refl

  decrypted_if :
      (enc : Option Aead) (b : Bool) (got other : Got)
      → decrypted enc (if b then got else other)
        ≡ (if b then decrypted enc got else decrypted enc other)
  decrypted_if enc true got other = refl
  decrypted_if enc false got other = refl

  decrypted_found :
      (enc : Option Aead) (got : Got) (v : Bytes)
      → decrypted enc got ≡ found v
      → (w : Bytes) × (got ≡ found w)
  decrypted_found none got v e = (v, e)
  decrypted_found (some gcm) not_exist v e = cc
  decrypted_found (some gcm) failed v e = cc
  decrypted_found (some gcm) (found w) v e = (w, refl)

  decrypted_absent :
      (enc : Option Aead) (got : Got) → decrypted enc got ≡ not_exist → got ≡ not_exist
  decrypted_absent none got e = e
  decrypted_absent (some gcm) not_exist e = refl
  decrypted_absent (some gcm) failed e = cc
  decrypted_absent (some gcm) (found w) e = elim (Option-cases (decrypt gcm w)) [
    | inl unsealed ↦ let no : failed ≡ not_exist = rw unsealed at e in cc
    | inr (plain, opened) ↦ let no : found plain ≡ not_exist = rw opened at e in cc
  ]

  delete_found :
      (c : FsCache) (k v : Bytes) (d : Disk)
      → can_hold (fragment_file_name k) d.tree ≡ true
      → get_in_time os c k d ≡ found v
      → (delete_in_time os c k d).0 ≡ done
  unfolding delete_in_time
  delete_found c k v d h e =
      let (w, there) = decrypted_found c.enc _ v (sym (get_quiet c k d) ∙ e) in
      rw (quiet.in_time deleting k d, delete_quiet c k d)
        (remove_of_found (fragment_file_name k) w d.tree h there)

  delete_missing :
      (c : FsCache) (k : Bytes) (d : Disk)
      → can_hold (fragment_file_name k) d.tree ≡ true
      → get_in_time os c k d ≡ not_exist
      → (delete_in_time os c k d).0 ≡ missing
  unfolding delete_in_time
  delete_missing c k d h e =
      let gone = decrypted_absent c.enc _ (sym (get_quiet c k d) ∙ e) in
      rw (quiet.in_time deleting k d, delete_quiet c k d)
        (remove_of_absent (fragment_file_name k) d.tree h gone)

  decrypted_missing : (enc : Option Aead) → decrypted enc not_exist ≡ not_exist
  decrypted_missing none = refl
  decrypted_missing (some gcm) = refl

  -- Where the system fails no call and an encryptor keeps its documented law, the backend on files
  -- keeps each promise of the interface, timeouts and encryption included: at keys whose files' names
  -- are apart, if a file can stand under the first one's name.
  pub conn-IsConnAt :
      (c : FsCache) (k j v : Bytes) (d : Disk)
      → IsSound c.enc
      → All IsByte k
      → All IsByte j
      → IsApart (fragment_file_name k) (fragment_file_name j)
      → can_hold (fragment_file_name k) d.tree ≡ true
      → IsConnAt (conn os c) k j v d
  unfolding set_in_time delete_in_time
  conn-IsConnAt c k j v d sound kb jb apart h =
      let nk = fragment_file_name k in
      let nj = fragment_file_name j in
      let (entry, (n, (s, o))) = set_quiet c k v d sound h in
      let r = delete_quiet c k d in
      let (ok, gone) = read_file-remove nk nj d.tree h apart in
      let same = fragment_file_name-injective k j kb jb in
      let before = sym (get_quiet c j d) in
      let kept = read_file-placed nk nj entry d.tree h apart in
      record {
        set_done = rw (quiet.in_time setting k d, s) refl;
        get_set =
            get_quiet c j (set os c k v d).1
            ∙ rw s (
                ap (decrypted c.enc) kept
                ∙ decrypted_if c.enc (str_eq nk nj) (found entry) (read_file nj d.tree)
                ∙ rw (o, same, before) refl);
        delete_present = λ w e. delete_found c k w d h e;
        delete_absent = λ e. delete_missing c k d h e;
        delete_not_broken = rw (quiet.in_time deleting k d, r) ok;
        get_delete =
            get_quiet c j (delete os c k d).1
            ∙ rw r (
                ap (decrypted c.enc) gone
                ∙ decrypted_if c.enc (str_eq nk nj) not_exist (read_file nj d.tree)
                ∙ rw (decrypted_missing c.enc, same, before) refl);
      }
