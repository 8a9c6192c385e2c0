-- ===== src/Processing/Groups/Laws.antt =====
-- Grouping is a partition of the batch that keeps the order within each group.
use mathlib.Core.List.{flatten, Perm, append-nil, append_assoc, perm_middle}
use mathlib.Core.List.Perm
use fastsqs.Base.{Bool, false, List, [], ◌∷◌, ◌++◌, ◌≡◌, refl, arith}
use fastsqs.Base.{
  ◌==◌, if◌then◌else◌, All, ◌≢◌, inl, inr, Bool-cases, Among, at_head, at_tail, ==_refl,
}
use fastsqs.Base.Dict
use fastsqs.Base.Dict.{Dict, NodupKeys}
use fastsqs.Value.{Value}
use fastsqs.Exceptions.{Exn, Res, ok, raise, Res-cases}
use fastsqs.Processing.Groups.{Key, key_eq, group_key, append_to, group_from, group_records}

abbrev pub has_key : Key → Res Key → Bool
has_key k (ok j) = k == j
has_key k (raise e) = false

-- The records of a group, in the order of the batch.
pub with_key : Key → List Value → List Value
with_key k [] = []
with_key k (r ∷ rs) = let rest = with_key k rs in if has_key k (group_key r) then r ∷ rest else rest

get_or-append_to :
    (k j : Key) (r : Value) (groups : Dict Key (List Value))
    → Dict.get_or k [] (append_to j r groups)
      ≡ (if k == j then Dict.get_or j [] groups ++ (r ∷ []) else Dict.get_or k [] groups)
unfolding append_to
get_or-append_to k j r groups =
    ground (arith, Dict.lookup-insert k j (Dict.get_or j [] groups ++ (r ∷ [])) groups)

group_from-with_key :
    (groups gs : Dict Key (List Value)) (records : List Value)
    → group_from groups records ≡ ok gs
    → (k : Key) → Dict.get_or k [] gs ≡ Dict.get_or k [] groups ++ with_key k records
unfolding group_from with_key
group_from-with_key groups gs [] h k = rw append-nil (ground arith)
group_from-with_key groups gs (r ∷ rs) h k = elim (Res-cases (group_key r)) [
  | inr (e, refused) ↦ absurd (cc (h, refused))
  | inl (j, found) ↦
      let later =
        group_from-with_key (append_to j r groups) gs rs (rw (found, group_from) at h) k in
      rw (later, found, get_or-append_to k j r groups)
        (ground (arith, append_assoc (Dict.get_or j [] groups) (r ∷ []) (with_key k rs)))
]

-- Every group that is listed has a record.
abbrev pub IsFull : Dict Key (List Value) → Type 0
IsFull groups = All (λ g. g.1 ≢ []) groups

insert-IsFull :
    (k : Key) (rs : List Value) (groups : Dict Key (List Value))
    → rs ≢ []
    → IsFull groups
    → IsFull (Dict.insert k rs groups)
unfolding Dict.insert
insert-IsFull k rs [] h full = (h, tt)
insert-IsFull k rs ((j, qs) ∷ groups) h full = ground (arith, insert-IsFull k rs groups h full.1)

append_to-cons :
    (k j : Key) (r : Value) (qs : List Value) (groups : Dict Key (List Value))
    → append_to k r ((j, qs) ∷ groups)
      ≡ (if k == j then (k, qs ++ (r ∷ [])) ∷ groups else (j, qs) ∷ append_to k r groups)
unfolding append_to Dict.insert Dict.lookup
append_to-cons k j r qs groups = ground arith

concat-ne-nil {ℓ} : {A : Type ℓ} (xs : List A) (x : A) → xs ++ (x ∷ []) ≢ []
concat-ne-nil [] x h = cc h
concat-ne-nil (y ∷ xs) x h = cc h

append_to-perm :
    (k : Key) (r : Value) (groups : Dict Key (List Value))
    → Perm (flatten (Dict.values (append_to k r groups))) (r ∷ flatten (Dict.values groups))
unfolding Dict.insert Dict.lookup flatten
append_to-perm k r [] = unfold append_to in Perm.refl (r ∷ [])
append_to-perm k r ((j, qs) ∷ groups) = elim (Bool-cases (k == j)) [
  | inl same ↦ rw (append_to-cons, same, append_assoc) (perm_middle qs _)
  | inr other ↦
      rw (append_to-cons, other)
        (Perm.trans (Perm.append_left qs (append_to-perm k r groups)) (perm_middle qs _))
]

group_from-perm :
    (groups gs : Dict Key (List Value)) (records : List Value)
    → group_from groups records ≡ ok gs
    → Perm (flatten (Dict.values gs)) (flatten (Dict.values groups) ++ records)
unfolding group_from
group_from-perm groups gs [] h =
    let same : groups ≡ gs = cc h in rw (append-nil, same) (Perm.refl _)
group_from-perm groups gs (r ∷ rs) h = elim (Res-cases (group_key r)) [
  | inr (e, refused) ↦ absurd (cc (h, refused))
  | inl (j, found) ↦
      Perm.trans (group_from-perm (append_to j r groups) gs rs (rw (found, group_from) at h)) (
        Perm.trans (Perm.append_right rs (append_to-perm j r groups))
          (Perm.symm (perm_middle (flatten (Dict.values groups)) rs)))
]

append_to-NodupKeys :
    (k : Key) (r : Value) (groups : Dict Key (List Value))
    → NodupKeys groups
    → NodupKeys (append_to k r groups)
unfolding append_to
append_to-NodupKeys k r groups u = Dict.insert-NodupKeys k _ groups u

append_to-IsFull :
    (k : Key) (r : Value) (groups : Dict Key (List Value))
    → IsFull groups
    → IsFull (append_to k r groups)
unfolding append_to
append_to-IsFull k r groups full =
    insert-IsFull k (Dict.get_or k [] groups ++ (r ∷ [])) groups
      (concat-ne-nil (Dict.get_or k [] groups) r) full

group_from-shape :
    (groups gs : Dict Key (List Value)) (records : List Value)
    → group_from groups records ≡ ok gs
    → NodupKeys groups
    → IsFull groups
    → NodupKeys gs × IsFull gs
unfolding group_from
group_from-shape groups gs [] h u full = let same : groups ≡ gs = cc h in rw (← same) (u, full)
group_from-shape groups gs (r ∷ rs) h u full = elim (Res-cases (group_key r)) [
  | inr (e, refused) ↦ absurd (cc (h, refused))
  | inl (j, found) ↦
      group_from-shape (append_to j r groups) gs rs (rw (found, group_from) at h)
        (append_to-NodupKeys j r groups u) (append_to-IsFull j r groups full)
]

-- What grouping promises of the groups of a batch.
pub record IsPartition (records : List Value) (groups : Dict Key (List Value)) : Type 0 where
  pub members : (k : Key) → Dict.get_or k [] groups ≡ with_key k records
  pub distinct : NodupKeys groups
  pub full : IsFull groups
  pub complete : Perm (flatten (Dict.values groups)) records

-- When a batch can be grouped, each group holds the records with its message group, in the order
-- of the batch; no key is listed twice, no group is empty, and the groups together are the batch:
-- no record is lost, repeated or moved to another group.
pub group_records-IsPartition :
    (records : List Value) (groups : Dict Key (List Value))
    → group_records records ≡ ok groups
    → IsPartition records groups
unfolding group_records Dict.lookup flatten
group_records-IsPartition records groups h =
    let (distinct, full) = group_from-shape [] groups records h tt tt in
    record {
      members = group_from-with_key [] groups records h;
      distinct = distinct;
      full = full;
      complete = group_from-perm [] groups records h;
    }

-- A record that has a message group.
abbrev pub HasGroup : Value → Type 0
HasGroup r = (k : Key) × (group_key r ≡ ok k)

group_from-total :
    (groups : Dict Key (List Value)) (records : List Value)
    → All HasGroup records
    → (gs : Dict Key (List Value)) × (group_from groups records ≡ ok gs)
unfolding group_from
group_from-total groups [] h = (groups, refl)
group_from-total groups (r ∷ rs) ((k, found), h) =
    rw (found, group_from) (group_from-total (append_to k r groups) rs h)

-- A batch is grouped if every record has a message group.
pub group_records-total :
    (records : List Value)
    → All HasGroup records
    → (groups : Dict Key (List Value)) × (group_records records ≡ ok groups)
unfolding group_records
group_records-total records h = group_from-total [] records h

group_from-refused :
    (groups : Dict Key (List Value)) (xs : List Value) (r : Value) (ys : List Value) (e : Exn)
    → All HasGroup xs
    → group_key r ≡ raise e
    → group_from groups (xs ++ (r ∷ ys)) ≡ raise e
unfolding group_from
group_from-refused groups [] r ys e h refused = rw (refused, group_from)
group_from-refused groups (x ∷ xs) r ys e ((k, found), h) refused =
    rw (found, group_from) (group_from-refused (append_to k x groups) xs r ys e h refused)

-- The first record with no message group fails the grouping as a whole, whatever follows it.
pub group_records-refused :
    (xs : List Value) (r : Value) (ys : List Value) (e : Exn)
    → All HasGroup xs
    → group_key r ≡ raise e
    → group_records (xs ++ (r ∷ ys)) ≡ raise e
unfolding group_records
group_records-refused xs r ys e h refused = group_from-refused [] xs r ys e h refused

-- A record stands in the group of its key.
pub with_key-Among :
    (r : Value) (k : Key) (records : List Value)
    → group_key r ≡ ok k
    → Among r records
    → Among r (with_key k records)
unfolding with_key
with_key-Among r k [] h here = elim here [ ]
with_key-Among r k (x ∷ xs) h (at_head e) = rw (← e, h, ==_refl k) (at_head refl)
with_key-Among r k (x ∷ xs) h (at_tail h') = elim (Bool-cases (has_key k (group_key x))) [
  | inl e ↦ rw e (at_tail (with_key-Among r k xs h h'))
  | inr e ↦ rw e (with_key-Among r k xs h h')
]

group_from-HasGroup :
    (groups gs : Dict Key (List Value)) (records : List Value) (r : Value)
    → group_from groups records ≡ ok gs
    → Among r records
    → HasGroup r
unfolding group_from
group_from-HasGroup groups gs [] r h here = elim here [ ]
group_from-HasGroup groups gs (x ∷ xs) r h here = elim (Res-cases (group_key x)) [
  | inr (e, refused) ↦ absurd (cc (h, refused))
  | inl (j, found) ↦ elim here [
    | at_head same ↦ (j, rw same found)
    | at_tail h' ↦
        group_from-HasGroup (append_to j x groups) gs xs r (rw (found, group_from) at h) h'
  ]
]

-- In a batch that can be grouped every record has a message group, and stands in it.
pub group_records-Among :
    (records : List Value) (groups : Dict Key (List Value)) (r : Value)
    → group_records records ≡ ok groups
    → Among r records
    → (k : Key) × Among r (Dict.get_or k [] groups)
unfolding group_records
group_records-Among records groups r h here =
    let (k, found) = group_from-HasGroup [] groups records r h here in
    (
      k,
      rw ((group_records-IsPartition records groups h).members k)
          (with_key-Among r k records found here),
    )
