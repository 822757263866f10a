-- ===== src/Store/GroupOrder.antt =====
-- The order of what ListGroups lists.
use mathlib.Core.List.{reverse, reverse-cons, reverse_perm, append-nil, Perm, perm_middle}
use mathlib.Core.List.Perm
use flowgo_server.Prelude.{
  Option, none, some, String, ◌≡◌, refl, sym, ap, subst, ◌∙◌, Bool, true, false, List, [], ◌∷◌,
  ◌++◌, map, select, All, All-append, Bool-cases, inl, inr, arith,
}
use flowgo_server.Clover.{Entry}
use flowgo_server.Store.Docs.{GroupDoc}
use flowgo_server.Store.Backend.{Backend, StoreDb}
use flowgo_server.Store.Exec.{ok, ◌>>=◌, pure, find_groups}
use flowgo_server.Store.Group.{
  GroupRecord, group_from_doc, group_less, sink, sort_from, list_groups,
}

-- Go's `<` on texts: no two texts are each less than the other, and a text that is between others
-- is on one side of them.
pub record TextOrder (text_lt : String → String → Bool) : Type 0 where
  pub asym : (s t : String) → text_lt s t ≡ true → text_lt t s ≡ false
  pub between : (s t u : String) → text_lt s t ≡ false → text_lt t u ≡ false → text_lt s u ≡ false

module _ (to_lower : String → String) (text_lt : String → String → Bool)
    (o : TextOrder text_lt) where
  abbrev less : GroupRecord → GroupRecord → Bool
  less x y = group_less to_lower text_lt x y

  less_asym : (x y : GroupRecord) → less x y ≡ true → less y x ≡ false
  unfolding group_less
  less_asym x y h = ground (arith, o.asym (to_lower x.name) (to_lower y.name))

  less_between : (x y z : GroupRecord) → less x y ≡ false → less y z ≡ false → less x z ≡ false
  unfolding group_less
  less_between x y z h k =
      ground (arith, o.between (to_lower x.name) (to_lower y.name) (to_lower z.name))

  -- No record is less than one before it.
  abbrev pub IsOrdered : List GroupRecord → Type 0
  IsOrdered [] = Unit
  IsOrdered (x ∷ xs) = All (λ y. less y x ≡ false) xs × IsOrdered xs

  -- The same from the right end.
  abbrev IsOrderedBack : List GroupRecord → Type 0
  IsOrderedBack [] = Unit
  IsOrderedBack (x ∷ xs) = All (λ y. less x y ≡ false) xs × IsOrderedBack xs

  All-sink :
      (P : GroupRecord → Type 0) (x : GroupRecord) (left : List GroupRecord)
      → P x
      → All P left
      → All P (sink to_lower text_lt x left)
  unfolding sink
  All-sink P x [] p h = (p, tt)
  All-sink P x (y ∷ left) p (q, h) = elim (Bool-cases (less x y)) [
    | inl e ↦ rw e (q, All-sink P x left p h)
    | inr e ↦ rw e (p, (q, h))
  ]

  All-between :
      (x y : GroupRecord) (left : List GroupRecord)
      → less x y ≡ false
      → All (λ z. less y z ≡ false) left
      → All (λ z. less x z ≡ false) left
  All-between x y [] e h = tt
  All-between x y (z ∷ left) e (q, h) = (less_between x y z e q, All-between x y left e h)

  sink-IsOrderedBack :
      (x : GroupRecord) (left : List GroupRecord)
      → IsOrderedBack left
      → IsOrderedBack (sink to_lower text_lt x left)
  unfolding sink
  sink-IsOrderedBack x [] h = (tt, tt)
  sink-IsOrderedBack x (y ∷ left) (q, h) = elim (Bool-cases (less x y)) [
    | inl e ↦
        rw e
          (All-sink (λ z. less y z ≡ false) x left (less_asym x y e) q, sink-IsOrderedBack x left h)
    | inr e ↦ rw e ((e, All-between x y left e q), (q, h))
  ]

  append-IsOrdered :
      (xs : List GroupRecord) (x : GroupRecord)
      → IsOrdered xs
      → All (λ y. less x y ≡ false) xs
      → IsOrdered (xs ++ (x ∷ []))
  append-IsOrdered [] x h k = (tt, tt)
  append-IsOrdered (y ∷ xs) x (q, h) (e, k) =
      (All-append (λ z. less z y ≡ false) xs (x ∷ []) q (e, tt), append-IsOrdered xs x h k)

  All-reverse : (P : GroupRecord → Type 0) (xs : List GroupRecord) → All P xs → All P (reverse xs)
  All-reverse P [] h = tt
  All-reverse P (x ∷ xs) (p, h) =
      rw (reverse-cons x xs) (All-append P (reverse xs) (x ∷ []) (All-reverse P xs h) (p, tt))

  reverse-IsOrdered : (xs : List GroupRecord) → IsOrderedBack xs → IsOrdered (reverse xs)
  reverse-IsOrdered [] h = tt
  reverse-IsOrdered (x ∷ xs) (q, h) = rw (reverse-cons x xs) (
      append-IsOrdered (reverse xs) x (reverse-IsOrdered xs h)
        (All-reverse (λ y. less x y ≡ false) xs q))

  sort_from-IsOrdered :
      (left right : List GroupRecord)
      → IsOrderedBack left
      → IsOrdered (sort_from to_lower text_lt left right)
  unfolding sort_from
  sort_from-IsOrdered left [] h = reverse-IsOrdered left h
  sort_from-IsOrdered left (x ∷ right) h =
      sort_from-IsOrdered (sink to_lower text_lt x left) right (sink-IsOrderedBack x left h)

  sink-Perm :
      (x : GroupRecord) (left : List GroupRecord) → Perm (sink to_lower text_lt x left) (x ∷ left)
  unfolding sink
  sink-Perm x [] = Perm.refl (x ∷ [])
  sink-Perm x (y ∷ left) = elim (Bool-cases (less x y)) [
    | inl e ↦ rw e (Perm.trans (Perm.cons y (sink-Perm x left)) (Perm.swap x y left))
    | inr e ↦ rw e (Perm.refl (x ∷ y ∷ left))
  ]

  sort_from-Perm :
      (left right : List GroupRecord) → Perm (sort_from to_lower text_lt left right) (left ++ right)
  unfolding sort_from
  sort_from-Perm left [] =
      subst (λ l. Perm (reverse left) l) (sym (append-nil left)) (reverse_perm left)
  sort_from-Perm left (x ∷ right) =
      Perm.trans (sort_from-Perm (sink to_lower text_lt x left) right) (
        Perm.trans (Perm.append_right right (sink-Perm x left))
          (Perm.symm (perm_middle left right)))

  module _ ⦃b : Backend⦄ where
    select_all : (es : List (Entry GroupDoc)) → select (λ e. true) es ≡ es
    select_all [] = refl
    select_all (e ∷ es) = ap (λ l. e ∷ l) (select_all es)

    -- Where text_lt is an order: a listing that succeeds changes nothing and returns each group of
    -- the database once, none after one that it is less than by the sort and then by the name in
    -- lower case.
    pub list_groups-IsOrdered :
        (s s' : StoreDb b) (out : List GroupRecord)
        → list_groups to_lower text_lt s ≡ (s', ok out)
        → (s ≡ s')
          × Perm out (map (λ (e : Entry GroupDoc). group_from_doc e.1) (b.groups.contents s.groups))
          × IsOrdered out
    unfolding list_groups find_groups ◌>>=◌ pure
    list_groups-IsOrdered s s' out h = found (b.groups.find_all (λ d. true) s.groups) refl
      where
        found :
            (o : Option (List (Entry GroupDoc)))
            → b.groups.find_all (λ d. true) s.groups ≡ o
            → (s ≡ s')
              × Perm out
                  (map (λ (e : Entry GroupDoc). group_from_doc e.1) (b.groups.contents s.groups))
              × IsOrdered out
        found none e = cc (rw (e, list_groups) at h)
        found (some docs) e =
            let h' = rw (e, list_groups) at h in
            let rs = map (λ (e : Entry GroupDoc). group_from_doc e.1) docs in
            let same : sort_from to_lower text_lt [] rs ≡ out = ground (arith, h') in
            let all = b.groups.found (λ d. true) s.groups docs e ∙ select_all _ in
            (
              ground (arith, h'),
              subst (λ l. Perm out (map (λ (e : Entry GroupDoc). group_from_doc e.1) l)) all
                  (subst (λ l. Perm l rs) same (sort_from-Perm [] rs)),
              subst IsOrdered same (sort_from-IsOrdered [] rs tt),
            )
