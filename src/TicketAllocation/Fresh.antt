-- ===== src/TicketAllocation/Fresh.antt =====
-- src/ticketAllocation.ts: the allocated ids are new.
use jme_loop_public.Prelude.{
  All-append, ℕ, ◌+◌, ◌≤◌, ◌<◌, String, ◌≡◌, refl, ap, subst, ◌⊎◌, inl, inr, false, Option, none,
  some, List, [], ◌∷◌, ◌++◌, All, In, get, set, get-set, includes, length, eqb, ◌==◌, eq_iff,
  Bool-cases, Option-cases, arith, exact,
}
use jme_loop_public.TicketIds.{parse_ticket_number}
use jme_loop_public.TicketAllocation.Numbers.{
  AtMost, max_number-AtMost, LeavesRoom, max_number_room, Consecutive, ids_after-Consecutive,
  length-ids_after,
}
use jme_loop_public.TicketAllocation.{
  Source, remote, TicketIdRecord, TicketFile, id_of_file, record_of, record_from_ticket_file,
  cons_some, records_of, scan_local, RemoteAnswers, RemoteScan, Result, ok, err, shown_records,
  scan_remote, max_number, ids_after, by_id, first_known, collision, TicketIdAllocation,
  checked_block, block_after, allocate_next_ticket_id_block,
}

-- A record's number is that of its id.
abbrev pub IsNumbered : TicketIdRecord → Type 0
IsNumbered r = parse_ticket_number r.id ≡ some r.number

record_of-IsNumbered :
    (id : String) (f : TicketFile) (source : Source) (n : Option ℕ) (rs : List TicketIdRecord)
    → parse_ticket_number id ≡ n
    → All IsNumbered rs
    → All IsNumbered (cons_some (record_of id f source n) rs)
unfolding cons_some record_of
record_of-IsNumbered id f source none rs e h = h
record_of-IsNumbered id f source (some n) rs e h = (e, h)

records_of-IsNumbered :
    (source : Source) (fs : List TicketFile) → All IsNumbered (records_of source fs)
unfolding records_of record_from_ticket_file cons_some
records_of-IsNumbered source [] = tt
records_of-IsNumbered source (f ∷ fs) = elim (Bool-cases (id_of_file f == "")) [
  | inl e ↦ rw e (records_of-IsNumbered source fs)
  | inr e ↦ rw e (
      record_of-IsNumbered (id_of_file f) f source (parse_ticket_number (id_of_file f))
        (records_of source fs) refl (records_of-IsNumbered source fs))
]

records_in : RemoteScan → Result RemoteScan → List TicketIdRecord
records_in d (ok scan) = scan.records
records_in d (err message) = d.records

shown_records-IsNumbered :
    (o : Option String) (fs : List TicketFile) (scan : RemoteScan)
    → shown_records (o, fs) ≡ ok scan
    → All IsNumbered scan.records
unfolding shown_records records_in
shown_records-IsNumbered (some message) fs scan h = cc
shown_records-IsNumbered none fs scan h =
    subst (All IsNumbered) (ap (λ r. records_in scan r) h) (records_of-IsNumbered remote fs)

scan_remote-IsNumbered :
    (ref : Option String) (a : RemoteAnswers) (scan : RemoteScan)
    → scan_remote ref a ≡ ok scan
    → All IsNumbered scan.records
unfolding scan_remote records_in
scan_remote-IsNumbered ref a scan h = elim (Bool-cases (eqb a.fetch.code 0)) [
  | inr unfetched ↦ subst (All IsNumbered) (ap (λ r. records_in scan r) (rw unfetched at h)) tt
  | inl fetched ↦ elim (Bool-cases (eqb a.listed.code 0)) [
    | inr unlisted ↦
        subst (All IsNumbered) (ap (λ r. records_in scan r) (rw (fetched, unlisted) at h)) tt
    | inl listed ↦ shown_records-IsNumbered _ _ scan (rw (fetched, listed) at h)
  ]
]

-- An id with a number up to `k` is none of those whose numbers follow `m`.
pub not_among :
    (m k n : ℕ) (id : String) (ids : List String)
    → Consecutive m ids
    → parse_ticket_number id ≡ some n
    → n ≤ k
    → k ≤ m
    → includes ids id ≡ false
not_among m k n id [] c p h j = refl
not_among m k n id (i ∷ ids) (q, c) p h j = ground (
  arith,
  eq_iff i id,
  ap parse_ticket_number {x = i} {y = id},
  not_among (m + 1) k n id ids c p h,
)

-- What the map of the records finds is one of them, under its id.
get-by_id :
    (id : String) (m : List (String × TicketIdRecord)) (rs : List TicketIdRecord)
    (r : TicketIdRecord)
    → get id (by_id m rs) ≡ some r
    → (get id m ≡ some r) ⊎ (In r rs × (r.id ≡ id))
unfolding by_id
get-by_id id m [] r h = inl h
get-by_id id m (x ∷ rs) r h = elim (get-by_id id (set x.id x m) rs r h) [
  | inr (at, e) ↦ inr (inr at, e)
  | inl q ↦ elim (Bool-cases (x.id == id)) [
    | inl same ↦ inr (
      ground (arith, same, q, get-set id x.id x m),
      ground (arith, same, q, get-set id x.id x m, eq_iff x.id id),
    )
    | inr other ↦ inl (ground (arith, other, q, get-set id x.id x m))
  ]
]

All-In :
    (P : TicketIdRecord → Type 0) (r : TicketIdRecord) (rs : List TicketIdRecord)
    → All P rs
    → In r rs
    → P r
All-In P r [] h at = elim at [ ]
All-In P r (x ∷ rs) (p, h) (inl e) = subst P e p
All-In P r (x ∷ rs) (p, h) (inr at) = All-In P r rs h at

module _ (k : ℕ) (rs : List TicketIdRecord) (numbered : All IsNumbered rs)
    (bounded : All (AtMost k) rs) where
  unknown :
      (m : ℕ) (id : String)
      → k ≤ m
      → parse_ticket_number id ≡ some (m + 1)
      → get id (by_id [] rs) ≡ none
  unknown m id h p = elim (Option-cases (get id (by_id [] rs))) [
    | inl gone ↦ gone
    | inr (r, q) ↦ elim (get-by_id id [] rs r q) [
      | inl e ↦ cc
      | inr (at, e) ↦
          let number = All-In IsNumbered r rs numbered at in
          let bound = All-In (AtMost k) r rs bounded at in
          absurd (ground (arith, number, bound, p, h, ap parse_ticket_number e))
    ]
  ]

  first_known-none :
      (m : ℕ) (ids : List String) → k ≤ m → Consecutive m ids → first_known (by_id [] rs) ids ≡ none
  unfolding first_known
  first_known-none m [] h c = refl
  first_known-none m (id ∷ ids) h (p, c) =
      rw (unknown m id h p, first_known) (first_known-none (m + 1) ids (omega (arith, h)) c)

  none_among :
      (ids : List String) (ss : List TicketIdRecord)
      → Consecutive k ids
      → All IsNumbered ss
      → All (AtMost k) ss
      → All (λ r. includes ids r.id ≡ false) ss
  none_among ids [] c n b = tt
  none_among ids (s ∷ ss) c (p, n) (q, b) =
      (not_among k k s.number s.id ids c p q (omega arith), none_among ids ss c n b)

-- New ids: as many as were asked for, with the numbers that follow every known one, and none known.
pub record IsNewBlock (count : ℕ) (known : List TicketIdRecord) (ids : List String) : Type 0 where
  pub top : ℕ
  pub above : All (AtMost top) known
  pub consecutive : Consecutive top ids
  pub as_many : length ids ≡ count
  pub none_known : All (λ r. includes ids r.id ≡ false) known

-- Where git could be asked, or could not fetch or list, and every known number and the count leave
-- the new numbers exact (2^53 at most), an allocation of at least one id is made: it never refuses
-- its own ids as taken. The ids have the numbers that follow every known one, of the local files
-- and of the remote branch as far as it was read, and no known ticket has one of them.
pub allocate_fresh :
    (count : ℕ) (files : List TicketFile) (ref : Option String) (a : RemoteAnswers)
    (scan : RemoteScan)
    → 0 < count
    → count ≤ exact
    → scan_remote ref a ≡ ok scan
    → All (LeavesRoom count) (scan_local files ++ scan.records)
    → (made : TicketIdAllocation) × (allocate_next_ticket_id_block count files ref a ≡ ok made)
      × IsNewBlock count (scan_local files ++ scan.records) made.ids
unfolding allocate_next_ticket_id_block block_after checked_block collision scan_local
allocate_fresh count files ref a scan pos few h room =
    let known = scan_local files ++ scan.records in
    let numbered =
      All-append IsNumbered (scan_local files) scan.records (records_of-IsNumbered _ _)
        (scan_remote-IsNumbered ref a scan h) in
    let (_, bounded) = max_number-AtMost 0 known in
    let top = max_number 0 known in
    let ids = ids_after top count in
    let consecutive =
      ids_after-Consecutive top count (max_number_room count 0 known (omega (arith, few)) room) in
    let made : TicketIdAllocation = record {
      ids = ids;
      global_max = top;
      remote_checked = scan.checked;
      warnings = scan.warnings;
      existing = known;
    } in
    let free = first_known-none top known numbered bounded top ids (omega arith) consecutive in
    (
      made,
      ground (arith, h, free, pos),
      record {
        top = top;
        above = bounded;
        consecutive = consecutive;
        as_many = length-ids_after top count;
        none_known = none_among top known numbered bounded ids known consecutive numbered bounded;
      },
    )
