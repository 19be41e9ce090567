-- ===== src/Wifi/Netplan/Undo.antt =====
-- What a backup of server/src/netplan_files.cpp brings back.
use encoder_next.Prelude.{
  ◌≡◌, refl, sym, ◌∙◌, Option, none, some, Bytes, Bool-cases, inl, inr, Result, ok, err, arith,
}
use encoder_next.Wifi.Backend.{WifiProfile}
use encoder_next.Wifi.Netplan.{
  ManagedFile, NetplanFaults, present, contents, canonical, backup, write_over, replace, removed,
  restore,
}

write_over-done :
    (r : Result ManagedFile) (f : NetplanFaults) (bytes : Bytes) (file : ManagedFile)
    → (write_over r f bytes file).0 ≡ ok tt
    → (write_over r f bytes file).1 ≡ some bytes
write_over-done (err message) f bytes file h = absurd (cc h)
write_over-done (ok old) f bytes file h = ground arith

removed-done :
    (r : Result ManagedFile) (f : NetplanFaults) (file : ManagedFile)
    → ((saved : ManagedFile) → r ≡ ok saved → file ≡ saved)
    → (removed r f file).0 ≡ ok tt
    → (removed r f file).1 ≡ none
removed-done (err message) f file own h = absurd (cc h)
removed-done (ok none) f file own h = own none refl
removed-done (ok (some bytes)) f file own h = ground arith

module _ (reads : Bytes → Option WifiProfile) where
  -- A backup that succeeds holds the file.
  pub backup-same :
      (f : NetplanFaults) (file saved : ManagedFile) → backup reads f file ≡ ok saved → file ≡ saved
  unfolding backup
  backup-same f none saved h = ground arith
  backup-same f (some bytes) saved h = ground arith

  pub replace-done :
      (f : NetplanFaults) (bytes : Bytes) (file : ManagedFile)
      → (replace reads f bytes file).0 ≡ ok tt
      → (replace reads f bytes file).1 ≡ some bytes
  unfolding replace
  replace-done f bytes file h = elim (Bool-cases (canonical reads bytes)) [
    | inl e ↦
        rw (e, replace) (write_over-done (backup reads f file) f bytes file (rw (e, replace) at h))
    | inr e ↦ absurd (cc (rw (e, replace) at h))
  ]

  -- A restoration that succeeds, from a backup that succeeded, leaves the file as it was when the
  -- backup was made, whatever it was in between.
  pub restore-backup :
      (f g : NetplanFaults) (file saved now : ManagedFile)
      → backup reads f file ≡ ok saved
      → (restore reads g (present saved) (contents saved) now).0 ≡ ok tt
      → (restore reads g (present saved) (contents saved) now).1 ≡ file
  unfolding restore
  restore-backup f g file none now b h =
      removed-done (backup reads g now) g now (λ saved e. backup-same g now saved e) h
      ∙ sym (backup-same f file none b)
  restore-backup f g file (some bytes) now b h =
      replace-done g bytes now h ∙ sym (backup-same f file (some bytes) b)
