-- ===== src/Boot/Stored.antt =====
-- What `get_clientid` of src/duiaid.c leaves in a file, and what a later call finds there.
use ndhc.Common.{
  ℕ, ◌+◌, ◌≤◌, Bytes, true, false, Option, none, some, [], ◌≡◌, refl, ap, inl, inr, ◌==◌,
  Bool-cases, take, length, take-all, arith, if◌then◌else◌,
}
use ndhc.Common.Process.{Run, returned, ended, fault, suicide, pure, ◌>>=◌, ◌>>◌, halt, onward}
use ndhc.Ifchange.Changes.{same_bytes}
use ndhc.Ifchange.Again.{same_bytes_self}
use ndhc.Boot.Identifiers.{stored}
use ndhc.Boot.World.{
  Boot, B, clientid_size, open_read, open_write, update, set_file, read_or_die, write_or_die,
}

-- A new identifier fits the buffer, and only the kernel was asked for it.
abbrev pub Generates : B Bytes → Type 0
Generates generate =
    (w : Boot)
    → (id : Bytes) × (n : ℕ) × (generate w ≡ returned id (record w { tick = n })) × (length id ≤ 64)

-- The result is what the file holds, as far as the buffer goes, and nothing else has changed.
abbrev pub Stored : Bytes → Boot → Run Boot Bytes → Type 0
Stored path w (returned id v) =
    (text : Bytes) × (v.files path ≡ some text)
    × (id ≡ take 64 text)
    × ((p : Bytes) → same_bytes p path ≡ false → v.files p ≡ w.files p)
    × (v ≡ record w { files = v.files; tick = v.tick })
Stored path w (ended e v) = Unit {0}
Stored path w fault = ⊥

read-Stored :
    (path text : Bytes) (w : Boot) (n : ℕ)
    → w.files path ≡ some text
    → Stored path w (read_or_die clientid_size text (record w { tick = n }))
read-Stored path text w n e = elim (Bool-cases (w.kernel.read n)) [
  | inl worked ↦ rw worked (text, e, refl, (λ p h. refl), refl)
  | inr failed ↦ rw failed tt
]

written-Stored :
    (path id : Bytes) (w : Boot) (n : ℕ) (files : Bytes → Option Bytes) (m : ℕ)
    → ((p : Bytes) → same_bytes p path ≡ false → files p ≡ w.files p)
    → length id ≤ 64
    → Stored path w (
        ((if m == length id then pure tt else halt suicide) >> pure id)
          (record w { files = update path (take m id) files; tick = n }))
written-Stored path id w n files m others fits = elim (Bool-cases (m == length id)) [
  | inl e ↦
      let whole : m ≡ length id = ground (arith, e) in
      rw e (
        id,
        rw (same_bytes_self path, whole, take-all (length id) id (omega arith)) refl,
        rw (take-all 64 id fits) refl,
        (λ p h. rw h (others p h)),
        refl,
      )
  | inr e ↦ rw e tt
]

write-Stored :
    (path id : Bytes) (w : Boot) (n : ℕ)
    → length id ≤ 64
    → Stored path w (
        ((open_write path >> pure path) >>= λ to. write_or_die to id >> pure id)
          (record w { tick = n }))
write-Stored path id w n fits = elim (Bool-cases (w.kernel.open_write n)) [
  | inr e ↦ rw e tt
  | inl e ↦ rw e (by_write (w.kernel.write (n + 1) (length id)))
]
  where
    by_write :
        (o : Option ℕ)
        → Stored path w (
            (elim o as (λ _. B (Unit {0})) [
              | none ↦ halt suicide
              | some m ↦
                  set_file path (take m id) >> (if m == length id then pure tt else halt suicide)
            ]
                >> pure id)
              (record w { files = update path [] w.files; tick = n + 1 + 1 }))
    by_write none = tt
    by_write (some m) =
        written-Stored path id w (n + 1 + 1) (update path [] w.files) m (λ p h. rw h refl) fits

pub stored-Stored :
    (path : Bytes) (generate : B Bytes)
    → Generates generate
    → (w : Boot) → Stored path w (stored (open_read path) generate (open_write path >> pure path) w)
unfolding stored
stored-Stored path generate g w = elim (Bool-cases (w.kernel.open_read w.tick)) [
  | inl e ↦ rw e (by_file (w.files path) refl)
  | inr e ↦ rw e fresh
]
  where
    fresh : Stored path w (
        (generate >>= λ id. (open_write path >> pure path) >>= λ to. write_or_die to id >> pure id)
          (record w { tick = w.tick + 1 }))
    fresh =
        let (id, n, e, fits) = g (record w { tick = w.tick + 1 }) in
        rw e (write-Stored path id w n fits)

    by_file :
        (o : Option Bytes)
        → w.files path ≡ o
        → Stored path w (
            elim o as (λ _. B Bytes) [
              | none ↦ generate >>= λ id.
                  (open_write path >> pure path) >>= λ to. write_or_die to id >> pure id
              | some text ↦ read_or_die clientid_size text
            ]
              (record w { tick = w.tick + 1 }))
    by_file none e = fresh
    by_file (some text) e = read-Stored path text w (w.tick + 1) e

-- What both calls of `open` come to, where the name of the file is the same throughout.
pub stored-at :
    (path : Bytes) (opened : B (Option Bytes)) (opened_write generate : B Bytes)
    → Generates generate
    → (w : Boot)
    → ((n : ℕ) → opened (record w { tick = n }) ≡ open_read path (record w { tick = n }))
    → ((n : ℕ)
        → opened_write (record w { tick = n })
          ≡ (open_write path >> pure path) (record w { tick = n }))
    → stored opened generate opened_write w
      ≡ stored (open_read path) generate (open_write path >> pure path) w
unfolding stored
stored-at path opened opened_write generate g w r o =
    rw (r w.tick) (by_file (if w.kernel.open_read w.tick then w.files path else none))
  where
    by_file :
        (fd : Option Bytes)
        → (elim fd as (λ _. B Bytes) [
          | none ↦ generate >>= λ id. opened_write >>= λ to. write_or_die to id >> pure id
          | some text ↦ read_or_die clientid_size text
        ]
            (record w { tick = w.tick + 1 }))
          ≡ (elim fd as (λ _. B Bytes) [
            | none ↦ generate >>= λ id.
                (open_write path >> pure path) >>= λ to. write_or_die to id >> pure id
            | some text ↦ read_or_die clientid_size text
          ]
              (record w { tick = w.tick + 1 }))
    by_file (some text) = refl
    by_file none =
        let (id, n, e, fits) = g (record w { tick = w.tick + 1 }) in
        rw e (ap (λ v. onward v (λ to. write_or_die to id >> pure id)) (o n))

-- A file that can be opened and read is not written again.
pub stored-again :
    (path text : Bytes) (generate : B Bytes) (w : Boot)
    → w.files path ≡ some text
    → w.kernel.open_read w.tick ≡ true
    → w.kernel.read (w.tick + 1) ≡ true
    → stored (open_read path) generate (open_write path >> pure path) w
      ≡ returned (take 64 text) (record w { tick = w.tick + 1 + 1 })
unfolding stored
stored-again path text generate w e opens reads = rw (opens, e, reads) refl

pub stored-suicide :
    (opened : B (Option Bytes)) (generate opened_write : B Bytes) (w : Boot)
    → opened w ≡ ended suicide w
    → stored opened generate opened_write w ≡ ended suicide w
unfolding stored
stored-suicide opened generate opened_write w e = rw e refl
