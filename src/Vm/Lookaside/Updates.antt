-- ===== src/Vm/Lookaside/Updates.antt =====
-- What a lookup in the TLB of my_vm.c finds after TLB_add and TLB_invalidate.
use cs416_operating_systems.Base.{
  ℕ, ◌<◌, ◌≡◌, ◌≢◌, ◌⊎◌, refl, sym, ◌∙◌, inl, inr, Option, none, some, arith, ◌==◌, Bool-cases,
  ==_self, ==→ne, ne→==,
}
use cs416_operating_systems.Vm.{Tlb, success, va2u, invalid_pa, tlb_entries}
use cs416_operating_systems.Vm.Lookaside.{
  matches, claim_slot, tlb_put, tlb_add, tlb_check, drop_entry, tlb_invalidate,
}
use cs416_operating_systems.Vm.Lookaside.Lookup.{
  Finds, found, missing, lookup, lookup-Finds, tlb_search_cong, IsTlb, Holds, IsHit, vpn_of,
  tlb_add-IsTlb,
}

-- In a well-formed TLB the entry for a page is the one that the search returns.
pub lookup_hit : (vpn i : ℕ) (t : Tlb) → IsTlb t → IsHit vpn i t → lookup vpn t ≡ some i
lookup_hit vpn i t h hit = go (lookup vpn t) (lookup-Finds vpn t)
  where
    go : (r : Option ℕ) → Finds tlb_entries 0 t.entries vpn r → r ≡ some i
    go r (found j lo hi valid same e) = ground (arith, h.distinct i j)
    go r (missing none_left e) = ground (arith, none_left i)

-- The slot that an addition writes.
abbrev put_slot : Option ℕ → Tlb → ℕ
put_slot none t = (claim_slot t).0
put_slot (some i) t = i

claim_slot-lt : (t : Tlb) → IsTlb t → (claim_slot t).0 < tlb_entries
unfolding claim_slot
claim_slot-lt t h = ground (arith, h.evict_lt)

tlb_put-IsHit :
    (vpn pa : ℕ) (t : Tlb) (r : Option ℕ)
    → IsTlb t
    → Finds tlb_entries 0 t.entries vpn r
    → let i = put_slot r t in
      let t' = tlb_put r vpn pa t in IsHit vpn i t' × ((t'.entries i).pte ≡ pa)
unfolding tlb_put
tlb_put-IsHit vpn pa t r h (found j lo hi valid same e) =
    rw (e, ==_self j) ((hi, valid, same), refl)
tlb_put-IsHit vpn pa t r h (missing none_left e) =
    rw (e, ==_self (claim_slot t).0) ((claim_slot-lt t h, refl, refl), refl)

tlb_check-eq-lookup :
    (va : ℕ) (t : Tlb) → va2u va ≢ invalid_pa → tlb_check va t ≡ lookup (vpn_of va) t
unfolding tlb_check lookup
tlb_check-eq-lookup va t h = rw (ne→== _ _ h)

tlb_add-eq-put :
    (va pa : ℕ) (t : Tlb)
    → va ≢ 0
    → va2u pa ≢ invalid_pa
    → tlb_add va pa t ≡ (success, tlb_put (lookup (vpn_of va) t) (vpn_of va) (va2u pa) t)
unfolding tlb_add lookup
tlb_add-eq-put va pa t p q = rw (ne→== _ _ p, ne→== _ _ q)

-- After TLB_add of a valid pair, which succeeds, TLB_check of the page finds the new translation.
pub tlb_check-tlb_add :
    (va pa : ℕ) (t : Tlb)
    → IsTlb t
    → va ≢ 0
    → va2u va ≢ invalid_pa
    → va2u pa ≢ invalid_pa
    → let (status, t') = tlb_add va pa t in
      (status ≡ success) × ((i : ℕ) × (tlb_check va t' ≡ some i) × ((t'.entries i).pte ≡ va2u pa))
tlb_check-tlb_add va pa t h p q r =
    let v = vpn_of va in
    let (hit, pte) = tlb_put-IsHit v (va2u pa) t _ h (lookup-Finds v t) in
    let valid = rw (tlb_add-eq-put va pa t p r) at (tlb_add-IsTlb va pa t h) in
    rw (tlb_add-eq-put va pa t p r, tlb_check-eq-lookup va _ q)
      (refl, (put_slot (lookup v t) t, lookup_hit v _ _ valid hit, pte))

drop_entry-IsTlb : (r : Option ℕ) (t : Tlb) → IsTlb t → IsTlb (drop_entry r t)
drop_entry-IsTlb none t h = h
drop_entry-IsTlb (some k) t h = record {
  count_le = h.count_le;
  evict_lt = h.evict_lt;
  filled = λ i b v. ground (arith, h.filled i);
  distinct = λ i j a b v w p. ground (arith, h.distinct i j);
}

-- An invalidation does nothing at 0xFFFFFFFF, and else drops the entry that the search finds.
tlb_invalidate-cases :
    (va : ℕ) (t : Tlb)
    → (tlb_invalidate va t ≡ t) ⊎ (tlb_invalidate va t ≡ drop_entry (lookup (vpn_of va) t) t)
unfolding tlb_invalidate lookup
tlb_invalidate-cases va t = elim (Bool-cases (va2u va == invalid_pa)) [
  | inl bad ↦ inl (rw bad)
  | inr good ↦ inr (rw good)
]

tlb_invalidate-eq-drop :
    (va : ℕ) (t : Tlb)
    → va2u va ≢ invalid_pa
    → tlb_invalidate va t ≡ drop_entry (lookup (vpn_of va) t) t
unfolding tlb_invalidate lookup
tlb_invalidate-eq-drop va t h = rw (ne→== _ _ h)

-- TLB_invalidate keeps the TLB well formed.
pub tlb_invalidate-IsTlb : (va : ℕ) (t : Tlb) → IsTlb t → IsTlb (tlb_invalidate va t)
tlb_invalidate-IsTlb va t h = elim (tlb_invalidate-cases va t) [
  | inl same ↦ rw same h
  | inr drop ↦ rw drop (drop_entry-IsTlb _ t h)
]

drop_entry-Holds :
    (P : ℕ → ℕ → Type 0) (vpn : ℕ) (t : Tlb) (r : Option ℕ)
    → IsTlb t
    → Finds tlb_entries 0 t.entries vpn r
    → Holds P t
    → Holds (λ v p. (v ≢ vpn) × P v p) (drop_entry r t)
drop_entry-Holds P vpn t r h (found j lo hi valid same e) old = rw e λ i b v.
    elim (Bool-cases (i == j)) [
      | inl here ↦ absurd (ground arith)
      | inr there ↦
          let w = rw there at v in
          let other = ==→ne i j there in
          rw there (λ p. other (h.distinct i j b hi w valid (p ∙ sym same)), old i b w)
    ]
drop_entry-Holds P vpn t r h (missing none_left e) old =
    rw e λ i b v. (none_left i (omega arith) b v, old i b v)

-- After TLB_invalidate no entry is left for the page; what held of the others still holds.
pub tlb_invalidate-Holds :
    (P : ℕ → ℕ → Type 0) (va : ℕ) (t : Tlb)
    → IsTlb t
    → va2u va ≢ invalid_pa
    → Holds P t
    → Holds (λ v p. (v ≢ vpn_of va) × P v p) (tlb_invalidate va t)
tlb_invalidate-Holds P va t h q old =
    rw (tlb_invalidate-eq-drop va t q) (drop_entry-Holds P _ t _ h (lookup-Finds _ t) old)

-- A TLB with no valid entry for the page: the search fails.
lookup_miss : (vpn : ℕ) (t : Tlb) → Holds (λ v p. (v ≢ vpn) × Unit {0}) t → lookup vpn t ≡ none
lookup_miss vpn t h = go (lookup vpn t) (lookup-Finds vpn t)
  where
    go : (r : Option ℕ) → Finds tlb_entries 0 t.entries vpn r → r ≡ none
    go r (found j lo hi valid same e) = absurd ((h j hi valid).0 same)
    go r (missing none_left e) = e

-- Dropping an entry of one page leaves the matches of any other page as they are.
matches-drop_entry :
    (vpn other : ℕ) (t : Tlb) (r : Option ℕ)
    → Finds tlb_entries 0 t.entries vpn r
    → other ≢ vpn
    → (j : ℕ) → matches (drop_entry r t).entries other j ≡ matches t.entries other j
matches-drop_entry vpn other t r (found k lo hi valid same e) ne j = rw e (ground arith)
matches-drop_entry vpn other t r (missing none_left e) ne j = rw e

-- After TLB_invalidate, TLB_check of that page misses, and TLB_check of an address in any other
-- page returns what it returned before.
pub tlb_check-tlb_invalidate :
    (va : ℕ) (t : Tlb)
    → IsTlb t
    → va2u va ≢ invalid_pa
    → (tlb_check va (tlb_invalidate va t) ≡ none)
      × ((vb : ℕ) → vpn_of vb ≢ vpn_of va → tlb_check vb (tlb_invalidate va t) ≡ tlb_check vb t)
unfolding tlb_check
tlb_check-tlb_invalidate va t h q =
    let gone = tlb_invalidate-Holds (λ v p. Unit {0}) va t h q (λ i b v. tt) in
    (
      tlb_check-eq-lookup va _ q ∙ lookup_miss (vpn_of va) (tlb_invalidate va t) gone,
      λ vb ne.
          let d = drop_entry (lookup (vpn_of va) t) t in
          let same = matches-drop_entry _ (vpn_of vb) t _ (lookup-Finds (vpn_of va) t) ne in
          rw (
            tlb_invalidate-eq-drop va t q,
            tlb_search_cong tlb_entries 0 d.entries t.entries (vpn_of vb) same,
          ),
    )
