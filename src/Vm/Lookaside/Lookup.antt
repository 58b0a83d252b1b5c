-- ===== src/Vm/Lookaside/Lookup.antt =====
-- The TLB of my_vm.c as a cache: what a lookup finds after an addition or an invalidation.
use cs416_operating_systems.Base.{
  ℕ, zero, suc, ◌+◌, ◌/◌, ◌^◌, ◌≤◌, ◌<◌, ◌≡◌, ◌≢◌, ◌⊎◌, refl, inl, inr, true, false, Option, none,
  some, arith, ltb, ◌==◌, Bool-cases,
}
use cs416_operating_systems.Vm.{Tlb, TlbEntry, success, va2u, invalid_pa, tlb_entries}
use cs416_operating_systems.Vm.Lookaside.{
  matches, tlb_search, claim_slot, tlb_put, tlb_add, tlb_check,
}

-- The first match among `n` entries from `i` on, or none.
pub data Finds (n i : ℕ) (entries : ℕ → TlbEntry) (vpn : ℕ) (r : Option ℕ) : Type 0 where
  found :
      (j : ℕ)
      → i ≤ j
      → j < i + n
      → (entries j).valid ≡ true
      → (entries j).vpn ≡ vpn
      → r ≡ some j
      → Finds n i entries vpn r
  missing :
      ((j : ℕ) → i ≤ j → j < i + n → (entries j).valid ≡ true → (entries j).vpn ≢ vpn)
      → r ≡ none
      → Finds n i entries vpn r

Finds-step :
    (n i : ℕ) (entries : ℕ → TlbEntry) (vpn : ℕ) (r : Option ℕ)
    → matches entries vpn i ≡ false
    → Finds n (i + 1) entries vpn r
    → Finds (suc n) i entries vpn r
Finds-step n i entries vpn r skip (found j lo hi valid same e) =
    found j (omega arith) (omega arith) valid same e
Finds-step n i entries vpn r skip (missing none_left e) =
    missing
      (λ j lo hi valid. elim (Bool-cases (i == j)) [
        | inl here ↦ ground arith
        | inr later ↦ none_left j (ground arith) (omega arith) valid
      ])
      e

pub tlb_search-Finds :
    (n i : ℕ) (entries : ℕ → TlbEntry) (vpn : ℕ)
    → Finds n i entries vpn (tlb_search n i entries vpn)
unfolding tlb_search
tlb_search-Finds zero i entries vpn = missing (λ j a b. absurd (omega arith)) refl
tlb_search-Finds (suc n) i entries vpn = elim (Bool-cases (matches entries vpn i)) [
  | inl hit ↦
      rw (hit, tlb_search) (found i (omega arith) (omega arith) (ground arith) (ground arith) refl)
  | inr skip ↦
      rw (skip, tlb_search)
        (Finds-step n i entries vpn _ skip (tlb_search-Finds n (i + 1) entries vpn))
]

-- Two tables that agree on what matches have the same search result.
pub tlb_search_cong :
    (n i : ℕ) (e f : ℕ → TlbEntry) (vpn : ℕ)
    → ((j : ℕ) → matches e vpn j ≡ matches f vpn j)
    → tlb_search n i e vpn ≡ tlb_search n i f vpn
unfolding tlb_search
tlb_search_cong zero i e f vpn h = refl
tlb_search_cong (suc n) i e f vpn h = elim (Bool-cases (matches f vpn i)) [
  | inl hit ↦ rw (h i, hit, tlb_search)
  | inr skip ↦ rw (h i, skip, tlb_search) (tlb_search_cong n (i + 1) e f vpn h)
]

-- The counters are in range, entries are valid only below `count`, and no page has two entries.
pub record IsTlb (t : Tlb) : Type 0 where
  pub count_le : t.count ≤ tlb_entries
  pub evict_lt : t.next_evict < tlb_entries
  pub filled : (i : ℕ) → i < tlb_entries → (t.entries i).valid ≡ true → i < t.count
  pub distinct :
      (i j : ℕ)
      → i < tlb_entries
      → j < tlb_entries
      → (t.entries i).valid ≡ true
      → (t.entries j).valid ≡ true
      → (t.entries i).vpn ≡ (t.entries j).vpn
      → i ≡ j

-- Every valid entry satisfies `P`, of its page and its table entry.
abbrev pub Holds : (ℕ → ℕ → Type 0) → Tlb → Type 0
Holds P t =
    (i : ℕ) → i < tlb_entries → (t.entries i).valid ≡ true → P (t.entries i).vpn (t.entries i).pte

-- The page number of an address.
abbrev pub vpn_of : ℕ → ℕ
vpn_of va = va2u va / 2 ^ 12

-- The search of the whole TLB.
unfoldable pub lookup : ℕ → Tlb → Option ℕ
lookup vpn t = tlb_search tlb_entries 0 t.entries vpn

tlb_put-IsTlb :
    (vpn pa : ℕ) (t : Tlb) (r : Option ℕ)
    → IsTlb t
    → Finds tlb_entries 0 t.entries vpn r
    → IsTlb (tlb_put r vpn pa t)
unfolding tlb_put claim_slot
tlb_put-IsTlb vpn pa t r h (found j lo hi valid same e) = rw e (record {
  count_le = h.count_le;
  evict_lt = h.evict_lt;
  filled = λ i b v. ground (arith, h.filled i);
  distinct = λ i k a b v w p. ground (arith, h.distinct i k);
})
tlb_put-IsTlb vpn pa t r h (missing none_left e) = rw e (record {
  count_le = ground (arith, h.count_le);
  evict_lt = ground (arith, h.evict_lt);
  filled = λ i b v. ground (arith, h.filled i);
  distinct = λ i k a b v w p. ground (arith, h.distinct i k, none_left i, none_left k);
})

-- An addition is refused, or writes one entry.
pub tlb_add-cases :
    (va pa : ℕ) (t : Tlb)
    → ((tlb_add va pa t).1 ≡ t)
      ⊎ (tlb_add va pa t ≡ (success, tlb_put (lookup (vpn_of va) t) (vpn_of va) (va2u pa) t))
unfolding tlb_add lookup
tlb_add-cases va pa t = elim (Bool-cases (va == 0)) [
  | inl null ↦ inl (rw null)
  | inr valid ↦ elim (Bool-cases (va2u pa == invalid_pa)) [
    | inl bad ↦ inl (rw (valid, bad))
    | inr good ↦ inr (rw (valid, good))
  ]
]

-- Any addition keeps the TLB well formed.
pub tlb_add-IsTlb : (va pa : ℕ) (t : Tlb) → IsTlb t → IsTlb (tlb_add va pa t).1
unfolding lookup
tlb_add-IsTlb va pa t h = elim (tlb_add-cases va pa t) [
  | inl same ↦ rw same h
  | inr put ↦ rw put (tlb_put-IsTlb _ _ t _ h (tlb_search-Finds tlb_entries 0 t.entries _))
]

pub claim_slot-entries : (t : Tlb) → (claim_slot t).1.entries ≡ t.entries
unfolding claim_slot
claim_slot-entries t = elim (Bool-cases (ltb t.count tlb_entries)) [ inl e ↦ rw e | inr e ↦ rw e ]

tlb_put-Holds :
    (P : ℕ → ℕ → Type 0) (vpn pa : ℕ) (t : Tlb) (r : Option ℕ)
    → Finds tlb_entries 0 t.entries vpn r
    → P vpn pa
    → Holds P t
    → Holds P (tlb_put r vpn pa t)
unfolding tlb_put
tlb_put-Holds P vpn pa t r (found j lo hi valid same e) new old = rw e λ i b v.
    elim (Bool-cases (i == j)) [
      | inl here ↦ rw (here, same) new
      | inr there ↦ rw there (old i b (rw there at v))
    ]
tlb_put-Holds P vpn pa t r (missing none_left e) new old =
    rw (e, claim_slot-entries t)
      λ i b v. elim (Bool-cases (i == (claim_slot t).0)) [
        | inl here ↦ rw here new
        | inr there ↦ rw there (old i b (rw there at v))
      ]

-- What holds of every valid entry, and of the new translation, holds after an addition.
pub tlb_add-Holds :
    (P : ℕ → ℕ → Type 0) (va pa : ℕ) (t : Tlb)
    → P (vpn_of va) (va2u pa)
    → Holds P t
    → Holds P (tlb_add va pa t).1
unfolding lookup
tlb_add-Holds P va pa t new old = elim (tlb_add-cases va pa t) [
  | inl same ↦ rw same old
  | inr put ↦ rw put (tlb_put-Holds P _ _ t _ (tlb_search-Finds tlb_entries 0 t.entries _) new old)
]

-- The search result as a fact about the whole TLB.
pub lookup-Finds : (vpn : ℕ) (t : Tlb) → Finds tlb_entries 0 t.entries vpn (lookup vpn t)
unfolding lookup
lookup-Finds vpn t = tlb_search-Finds tlb_entries 0 t.entries vpn

abbrev pub IsHit : ℕ → ℕ → Tlb → Type 0
IsHit vpn i t = (i < tlb_entries) × ((t.entries i).valid ≡ true) × ((t.entries i).vpn ≡ vpn)

Finds-IsHit :
    (vpn i : ℕ) (t : Tlb) (r : Option ℕ)
    → Finds tlb_entries 0 t.entries vpn r
    → r ≡ some i
    → IsHit vpn i t
Finds-IsHit vpn i t r (found j lo hi valid same e) h = ground arith
Finds-IsHit vpn i t r (missing none_left e) h = ground arith

-- What a hit returns: a slot that holds a valid entry for the page.
pub tlb_check-IsHit : (va i : ℕ) (t : Tlb) → tlb_check va t ≡ some i → IsHit (vpn_of va) i t
unfolding tlb_check
tlb_check-IsHit va i t h = elim (Bool-cases (va2u va == invalid_pa)) [
  | inl bad ↦ absurd (ground arith)
  | inr good ↦ Finds-IsHit _ i t _ (tlb_search-Finds tlb_entries 0 t.entries _) (ground arith)
]
