-- ===== src/Wifi/Journal/Durability.antt =====
-- What a write of server/src/wifi_journal.cpp leaves on the disk.
use encoder_next.Prelude.{
  ◌≡◌, ◌⊎◌, inl, inr, refl, Bool, true, false, ◌||◌, Option, none, some, Bytes, length, ltb,
  if◌then◌else◌, if_both, String, Result, ok, err, Option-cases, arith, ◌++◌,
}
use encoder_next.Wifi.Journal.Record.{RecoveryRecord, valid, body, encode, decode}
use encoder_next.Wifi.Journal.Record.RoundTrip.{
  IsRecord, valid_sizes, decode-encoded, length-encoded,
}
use encoder_next.Wifi.Journal.{Faults, Disk, no_faults, load, save}

-- SHA-256, where it succeeds, gives 32 bytes.
abbrev pub IsDigest : (Bytes → Option Bytes) → Type 0
IsDigest checksum = (data' digest : Bytes) → checksum data' ≡ some digest → length digest ≡ 32

abbrev Undisturbed {ℓ} : {A : Type ℓ} → A → Result A → Type ℓ
Undisturbed v r = (r ≡ ok v) ⊎ ((m : String) × (r ≡ err m))

-- Faults on the way to a result that is there without them.
disturbed {ℓ} :
    {A : Type ℓ} (v : A) (o u l h t g : Bool) (a b c d : String) (r : Result A)
    → (if false || l || h then err b else r) ≡ ok v
    → Undisturbed v (
        if o
        then err a
        else if u || l || h
        then err b
        else if t
        then err c
        else if g
        then err d
        else r)
disturbed v true u l h t g a b c d r e = inr (a, refl)
disturbed v false u l h t g a b c d r e = ground arith

module _ (checksum : Bytes → Option Bytes) (sha : IsDigest checksum) where
  load-encoded :
      (r : RecoveryRecord) (digest : Bytes)
      → IsRecord r
      → checksum (body r) ≡ some digest
      → load checksum no_faults (some (body r ++ digest)) ≡ ok (some r)
  unfolding load
  load-encoded r digest good e =
      let d32 = sha (body r) digest e in
      let back = decode-encoded r digest good d32 checksum e in
      let n = length-encoded r digest good d32 in
      let small = (valid_sizes r good.0).2 in
      let low : ltb (length (body r ++ digest)) 122 ≡ false = ground (arith, n) in
      let high : ltb 65658 (length (body r ++ digest)) ≡ false = ground (arith, n, small) in
      rw (low, high, back)

  abbrev Written : RecoveryRecord → Disk → Result (Unit {0}) × Disk → Type 0
  Written r d s =
      ((s.1 ≡ d) ⊎ (load checksum no_faults s.1 ≡ ok (some r)))
      × (s.0 ≡ ok tt → load checksum no_faults s.1 ≡ ok (some r))

  -- If digests have 32 bytes: whatever goes wrong in a write of a valid record with a deadline of 64
  -- bits, the disk keeps what it held or holds the whole new record; and where the write reports
  -- success, the next undisturbed reading gives that record.
  pub save_atomic :
      (f : Faults) (r : RecoveryRecord) (d : Disk)
      → IsRecord r
      → (((save checksum f r d).1 ≡ d)
          ⊎ (load checksum no_faults (save checksum f r d).1 ≡ ok (some r)))
        × ((save checksum f r d).0 ≡ ok tt
            → load checksum no_faults (save checksum f r d).1 ≡ ok (some r))
  unfolding save encode
  save_atomic f r d good = elim (Option-cases (checksum (body r))) [
    | inl e ↦ rw (good.0, e, save, encode) (inl refl, λ h. cc)
    | inr (digest, e) ↦
        let back = load-encoded r digest good e in
        rw (good.0, e, save, encode)
          (if_both (Written r d) f.create_fails _ _ (inl refl, λ h. cc)
            (if_both (Written r d) f.persist_fails _ _ (inl refl, λ h. cc)
              (if_both (Written r d) f.sync_fails _ _ (inr back, λ h. back) (inr back, λ h. back))))
  ]

  -- What is read has passed `valid`, and a reading that is disturbed fails or gives the same.
  pub load-valid :
      (d : Disk) (r : RecoveryRecord) → load checksum no_faults d ≡ ok (some r) → valid r ≡ true
  unfolding load decode
  load-valid none r h = cc
  load-valid (some b) r h = ground arith

  abbrev read : Bytes → Result (Option RecoveryRecord)
  read b = elim (decode checksum b) [ err m ↦ err m | ok r ↦ ok (some r) ]

  pub load_disturbed :
      (f : Faults) (d : Disk) (v : Option RecoveryRecord)
      → load checksum no_faults d ≡ ok v
      → (load checksum f d ≡ ok v) ⊎ ((m : String) × (load checksum f d ≡ err m))
  unfolding load
  load_disturbed f none v h = ground arith
  load_disturbed f (some b) v h =
      disturbed v f.open_fails f.unsafe_file (ltb (length b) 122) (ltb 65658 (length b)) f.truncated
        f.grown _ _ _ _ (read b) h
