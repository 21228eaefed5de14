-- ===== src/Payins/Scan/Keys.antt =====
-- The keys of transfers as `mergeTransfers` sees them: look-up by key, and lists with no key twice.
use avasettile.Common.{
  ◌≡◌, refl, sym, true, false, Option, none, some, List, [], ◌∷◌, ◌++◌, arith, All, ap, subst, ◌∙◌,
  if◌then◌else◌, Bool-cases, inl, inr,
}
use mathlib.Core.List.{append_assoc, append-nil}
use avasettile.Records.PayIn.{PayInTransferRecord}
use avasettile.Payins.Scan.{
  TransferKey, by_log, by_content, transfer_key, same_key, set_transfer, set_all,
}

same_key_refl : (k : TransferKey) → same_key k k ≡ true
same_key_refl (by_log h i) = ground arith
same_key_refl (by_content h f a b) = ground arith

same_key-true : (k l : TransferKey) → same_key k l ≡ true → k ≡ l
same_key-true (by_log h i) (by_log h' i') e = ground arith
same_key-true (by_content h f a b) (by_content h' f' a' b') e = ground arith
same_key-true (by_log h i) (by_content h' f' a' b') e = cc
same_key-true (by_content h f a b) (by_log h' i') e = cc

-- The transfer with a key.
abbrev pub lookup : TransferKey → List PayInTransferRecord → Option PayInTransferRecord
lookup k [] = none
lookup k (u ∷ us) = if same_key (transfer_key u) k then some u else lookup k us

-- No two of the transfers have one key.
abbrev pub NoRepeat : List PayInTransferRecord → Type 0
NoRepeat [] = Unit
NoRepeat (t ∷ ts) = (lookup (transfer_key t) ts ≡ none) × NoRepeat ts

-- A transfer that is there as it is.
abbrev pub IsStored : List PayInTransferRecord → PayInTransferRecord → Type 0
IsStored us t = lookup (transfer_key t) us ≡ some t

set_transfer-stored :
    (t : PayInTransferRecord) (us : List PayInTransferRecord)
    → IsStored us t
    → set_transfer t us ≡ us
set_transfer-stored t [] stored = cc
set_transfer-stored t (u ∷ us) stored =
    elim (Bool-cases (same_key (transfer_key u) (transfer_key t))) [
      | inl same ↦ let stored' = rw same at stored in rw same (cc)
      | inr ne ↦
          let stored' = rw ne at stored in
          rw ne (ap (λ l. u ∷ l) (set_transfer-stored t us stored'))
    ]

set_transfer-new :
    (t : PayInTransferRecord) (us : List PayInTransferRecord)
    → lookup (transfer_key t) us ≡ none
    → set_transfer t us ≡ us ++ t ∷ []
set_transfer-new t [] new = refl
set_transfer-new t (u ∷ us) new = elim (Bool-cases (same_key (transfer_key u) (transfer_key t))) [
  | inl same ↦ let new' = rw same at new in cc
  | inr ne ↦ let new' = rw ne at new in rw ne (ap (λ l. u ∷ l) (set_transfer-new t us new'))
]

pub same_key-sym : (k l : TransferKey) → same_key k l ≡ same_key l k
same_key-sym (by_log h i) (by_log h' i') = ground arith
same_key-sym (by_content h f a b) (by_content h' f' a' b') = ground arith
same_key-sym (by_log h i) (by_content h' f' a' b') = refl
same_key-sym (by_content h f a b) (by_log h' i') = refl

pub set_all-stored : (us ts : List PayInTransferRecord) → All (IsStored us) ts → set_all us ts ≡ us
set_all-stored us [] h = refl
set_all-stored us (t ∷ ts) (h, hs) = rw (set_transfer-stored t us h) (set_all-stored us ts hs)

pub set_all-append :
    (us ts vs : List PayInTransferRecord) → set_all us (ts ++ vs) ≡ set_all (set_all us ts) vs
set_all-append us [] vs = refl
set_all-append us (t ∷ ts) vs = set_all-append (set_transfer t us) ts vs

-- A look-up in a list that is put together.
pub lookup-append_none :
    (k : TransferKey) (us vs : List PayInTransferRecord)
    → lookup k (us ++ vs) ≡ none
    → (lookup k us ≡ none) × (lookup k vs ≡ none)
lookup-append_none k [] vs h = (refl, h)
lookup-append_none k (u ∷ us) vs h = elim (Bool-cases (same_key (transfer_key u) k)) [
  | inl same ↦ let h' = rw same at h in cc
  | inr ne ↦ rw ne (lookup-append_none k us vs (rw ne at h))
]

pub lookup-append_new :
    (k : TransferKey) (us vs : List PayInTransferRecord)
    → lookup k us ≡ none
    → lookup k (us ++ vs) ≡ lookup k vs
lookup-append_new k [] vs h = refl
lookup-append_new k (u ∷ us) vs h = elim (Bool-cases (same_key (transfer_key u) k)) [
  | inl same ↦ let h' = rw same at h in cc
  | inr ne ↦ rw ne (lookup-append_new k us vs (rw ne at h))
]

abbrev first_of :
    Option PayInTransferRecord → Option PayInTransferRecord → Option PayInTransferRecord
first_of (some t) o = some t
first_of none o = o

lookup-append_first :
    (k : TransferKey) (us vs : List PayInTransferRecord)
    → lookup k (us ++ vs) ≡ first_of (lookup k us) (lookup k vs)
lookup-append_first k [] vs = refl
lookup-append_first k (u ∷ us) vs = elim (Bool-cases (same_key (transfer_key u) k)) [
  | inl same ↦ rw same refl
  | inr ne ↦ rw ne (lookup-append_first k us vs)
]

pub lookup-append :
    (k : TransferKey) (us us' vs : List PayInTransferRecord)
    → lookup k us ≡ lookup k us'
    → lookup k (us ++ vs) ≡ lookup k (us' ++ vs)
lookup-append k us us' vs same =
    lookup-append_first k us vs ∙ rw same (sym (lookup-append_first k us' vs))

-- Transfers whose keys are not among the others.
abbrev pub IsNewTo : List PayInTransferRecord → PayInTransferRecord → Type 0
IsNewTo us t = lookup (transfer_key t) us ≡ none

IsNewTo-cons :
    (u : PayInTransferRecord) (us ts : List PayInTransferRecord)
    → lookup (transfer_key u) ts ≡ none
    → All (IsNewTo us) ts
    → All (IsNewTo (u ∷ us)) ts
IsNewTo-cons u us [] h hs = tt
IsNewTo-cons u us (t ∷ ts) h (new, hs) =
    elim (Bool-cases (same_key (transfer_key t) (transfer_key u))) [
      | inl same ↦ let h' = rw same at h in cc
      | inr ne ↦ (
        rw (same_key-sym (transfer_key u) (transfer_key t)) (rw ne new),
        IsNewTo-cons u us ts (rw ne at h) hs,
      )
    ]

nothing_before : (ts : List PayInTransferRecord) → All (IsNewTo []) ts
nothing_before [] = tt
nothing_before (t ∷ ts) = (refl, nothing_before ts)

-- Of a list with no key twice, the end is new to the start, and it has no key twice itself.
pub NoRepeat-split :
    (us ts : List PayInTransferRecord)
    → NoRepeat (us ++ ts)
    → All (IsNewTo us) ts × NoRepeat ts × NoRepeat us
NoRepeat-split [] ts h = (nothing_before ts, h, tt)
NoRepeat-split (u ∷ us) ts (new, h) =
    let (hs, rest, front) = NoRepeat-split us ts h in
    let (new', new'') = lookup-append_none (transfer_key u) us ts new in
    (IsNewTo-cons u us ts new'' hs, rest, (new', front))

lookup_of_new :
    (u : PayInTransferRecord) (us ts : List PayInTransferRecord)
    → All (IsNewTo (u ∷ us)) ts
    → (lookup (transfer_key u) ts ≡ none) × All (IsNewTo us) ts
lookup_of_new u us [] h = (refl, tt)
lookup_of_new u us (t ∷ ts) (new, hs) =
    elim (Bool-cases (same_key (transfer_key u) (transfer_key t))) [
      | inl same ↦ let new' = rw same at new in cc
      | inr ne ↦
          let (none_there, rest) = lookup_of_new u us ts hs in
          (
            rw (same_key-sym (transfer_key t) (transfer_key u)) (rw ne none_there),
            (rw ne at new, rest),
          )
    ]

pub NoRepeat-join :
    (us ts : List PayInTransferRecord)
    → NoRepeat us
    → NoRepeat ts
    → All (IsNewTo us) ts
    → NoRepeat (us ++ ts)
NoRepeat-join [] ts hu ht new = ht
NoRepeat-join (u ∷ us) ts (hu, hus) ht new =
    let (none_there, rest) = lookup_of_new u us ts new in
    (lookup-append_new (transfer_key u) us ts hu ∙ none_there, NoRepeat-join us ts hus ht rest)

pub set_all-new :
    (us ts : List PayInTransferRecord) → NoRepeat (us ++ ts) → set_all us ts ≡ us ++ ts
set_all-new us [] h = sym (append-nil us)
set_all-new us (t ∷ ts) h =
    let ((new, _), _, _) = NoRepeat-split us (t ∷ ts) h in
    rw (set_transfer-new t us new) (
      set_all-new (us ++ t ∷ []) ts (subst NoRepeat (sym (append_assoc us (t ∷ []) ts)) h)
      ∙ append_assoc us (t ∷ []) ts)

IsStored-in_cons :
    (t : PayInTransferRecord) (ts vs : List PayInTransferRecord)
    → IsNewTo ts t
    → All (IsStored ts) vs
    → All (IsStored (t ∷ ts)) vs
IsStored-in_cons t ts [] new h = tt
IsStored-in_cons t ts (v ∷ vs) new (h, hs) = (
  elim (Bool-cases (same_key (transfer_key t) (transfer_key v))) [
    | inl same ↦ let e = same_key-true (transfer_key t) (transfer_key v) same in cc
    | inr ne ↦ rw ne h
  ],
  IsStored-in_cons t ts vs new hs,
)

-- In a list with no key twice, each transfer is found by its key.
pub NoRepeat-IsStored : (ts : List PayInTransferRecord) → NoRepeat ts → All (IsStored ts) ts
NoRepeat-IsStored [] h = tt
NoRepeat-IsStored (t ∷ ts) (new, h) = (
  rw (same_key_refl (transfer_key t)) refl,
  IsStored-in_cons t ts ts new (NoRepeat-IsStored ts h),
)

pub same_key-both :
    (k l m : TransferKey) → same_key k m ≡ true → same_key l m ≡ true → same_key k l ≡ true
same_key-both k l m e f =
    let e' = same_key-true k m e in let f' = same_key-true l m f in let same = same_key_refl l in cc

pub head_differs :
    (k : TransferKey) (u : PayInTransferRecord) (us : List PayInTransferRecord)
    → lookup k (u ∷ us) ≡ none
    → (same_key (transfer_key u) k ≡ false) × (lookup k us ≡ none)
head_differs k u us h = elim (Bool-cases (same_key (transfer_key u) k)) [
  | inl same ↦ let h' = rw same at h in cc
  | inr ne ↦ (ne, rw ne at h)
]
