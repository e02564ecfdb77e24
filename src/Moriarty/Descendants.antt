-- ===== src/Moriarty/Descendants.antt =====
-- The search for descendants terminates and finds exactly the descendants.
use mathlib.Core.Path.{subst}
use Prim.Native.Nat.{min}
use qsol_fed.Base.{
  ℕ, zero, suc, ◌+◌, ◌≤◌, ◌≡◌, refl, sym, Bool, true, false, ◌&&◌, ◌||◌, not, ◌==◌, List, [], ◌∷◌,
  length, arith, if◌then◌else◌, some, All, Bool-cases, inl, inr, ◌↔◌, ◌⊎◌,
}
use qsol_fed.Moriarty.Processes.{
  member, Parents, is_child, mark, search_descendants, descendant_pids, Descends, child, below,
}

member-All : (P : ℕ → Type 0) (xs : List ℕ) (x : ℕ) → All P xs → member xs x ≡ true → P x
unfolding member
member-All P [] x h m = cc
member-All P (y ∷ ys) x h m = elim (Bool-cases (y == x)) [
  | inl e ↦ (let same : y ≡ x = ground arith in subst P same h.0)
  | inr e ↦ member-All P ys x h.1 (ground arith)
]

-- how many entries are of processes that are not among the descendants
abbrev unseen : Parents → List ℕ → ℕ
unseen [] ds = 0
unseen ((pid, _) ∷ ps) ds = (if member ds pid then 0 else 1) + unseen ps ds

unseen-le : (ps : Parents) (x : ℕ) (ds : List ℕ) → unseen ps (x ∷ ds) ≤ unseen ps ds
unfolding member
unseen-le [] x ds = omega arith
unseen-le ((pid, _) ∷ ps) x ds = ground (arith, unseen-le ps x ds)

unseen-lt :
    (ps : Parents) (x parent : ℕ) (ds : List ℕ)
    → is_child ps x parent ≡ true
    → member ds x ≡ false
    → unseen ps (x ∷ ds) + 1 ≤ unseen ps ds
unfolding member is_child
unseen-lt [] x parent ds c m = cc
unseen-lt ((pid, q) ∷ ps) x parent ds c m = elim (Bool-cases (is_child ps x parent)) [
  | inl e ↦ ground (arith, unseen-lt ps x parent ds e m)
  | inr e ↦ ground (arith, unseen-le ps x ds)
]

abbrev marks : List ℕ → List ℕ → ℕ → ℕ → Bool
marks frontier descendants pid parent = member frontier parent && not (member descendants pid)

-- One `for` loop over entries of `qs`: nothing is lost, every child of the frontier is found, what is
-- new is in the next frontier, and the measure falls by what is new.
record Marked (qs ps : Parents) (frontier ds next : List ℕ) (result : List ℕ × List ℕ)
    : Type 0 where
  kept : (x : ℕ) → member ds x ≡ true → member result.0 x ≡ true
  listed : (x : ℕ) → member next x ≡ true → member result.1 x ≡ true
  found : (a b : ℕ) → is_child ps a b ≡ true → member frontier b ≡ true → member result.0 a ≡ true
  new : (x : ℕ) → member result.0 x ≡ true → (member ds x || member result.1 x) ≡ true
  measure : unseen qs result.0 + length result.1 ≤ unseen qs ds + length next

marked :
    (pid parent : ℕ) (frontier ds : List ℕ) (a b : ℕ)
    → pid ≡ a
    → parent ≡ b
    → member frontier b ≡ true
    → marks frontier ds pid parent ≡ false
    → member ds a ≡ true
marked pid parent frontier ds a b p q m e =
    subst (λ x. member ds x ≡ true) p
      (let found = subst (λ y. member frontier y ≡ true) (sym q) m in ground arith)

mark-Marked :
    (qs ps : Parents) (frontier ds next : List ℕ)
    → ((a b : ℕ) → is_child ps a b ≡ true → is_child qs a b ≡ true)
    → Marked qs ps frontier ds next (mark ps frontier ds next)
unfolding mark is_child member
mark-Marked qs [] frontier ds next sub = record {
  kept = λ x h. h;
  listed = λ x h. h;
  found = λ a b c m. cc;
  new = λ x h. rw h;
  measure = omega arith;
}
mark-Marked qs ((pid, parent) ∷ ps) frontier ds next sub =
    elim (Bool-cases (marks frontier ds pid parent)) [
      | inl e ↦ rw e (
          let rest =
            mark-Marked qs ps frontier (pid ∷ ds) (pid ∷ next) (λ a b c. sub a b (ground arith)) in
          let fewer = unseen-lt qs pid parent ds (sub pid parent (ground arith)) (ground arith) in
          record {
            kept = λ x h. rest.kept x (ground arith);
            listed = λ x h. rest.listed x (ground arith);
            found = λ a b c m. elim (Bool-cases (is_child ps a b)) [
              | inl k ↦ rest.found a b k m
              | inr k ↦ rest.kept a (ground arith)
            ];
            new = λ x h.
                let r = rest.new x h in
                elim (Bool-cases (pid == x)) [
                  | inl k ↦ (let l = rest.listed x (ground arith) in ground arith)
                  | inr k ↦ ground arith
                ];
            measure = (let m = rest.measure in omega arith);
          })
      | inr e ↦ rw e (
          let rest = mark-Marked qs ps frontier ds next (λ a b c. sub a b (ground arith)) in
          record {
            kept = rest.kept;
            listed = rest.listed;
            found = λ a b c m. elim (Bool-cases (is_child ps a b)) [
              | inl k ↦ rest.found a b k m
              | inr k ↦
                  rest.kept a (marked pid parent frontier ds a b (ground arith) (ground arith) m e)
            ];
            new = rest.new;
            measure = rest.measure;
          })
    ]

-- One `for` loop adds descendants only.
record Descending (qs : Parents) (root : ℕ) (result : List ℕ × List ℕ) : Type 0 where
  below_root : All (Descends qs root) result.0
  ahead : All (λ x. (x ≡ root) ⊎ Descends qs root x) result.1

mark-Descends :
    (qs ps : Parents) (root : ℕ) (frontier ds next : List ℕ)
    → ((a b : ℕ) → is_child ps a b ≡ true → is_child qs a b ≡ true)
    → All (λ x. (x ≡ root) ⊎ Descends qs root x) frontier
    → All (Descends qs root) ds
    → All (λ x. (x ≡ root) ⊎ Descends qs root x) next
    → Descending qs root (mark ps frontier ds next)
unfolding mark is_child
mark-Descends qs [] root frontier ds next sub f d n = record { below_root = d; ahead = n }
mark-Descends qs ((pid, parent) ∷ ps) root frontier ds next sub f d n =
    elim (Bool-cases (marks frontier ds pid parent)) [
      | inl e ↦
          (let here = descends e in
            rw e (
              mark-Descends qs ps root frontier (pid ∷ ds) (pid ∷ next)
                (λ a b c. sub a b (ground arith)) f (here, d) (inr here, n)))
      | inr e ↦
          rw e (mark-Descends qs ps root frontier ds next (λ a b c. sub a b (ground arith)) f d n)
    ]
  where
    edge : is_child qs pid parent ≡ true
    edge = sub pid parent (ground arith)

    descends : marks frontier ds pid parent ≡ true → Descends qs root pid
    descends e =
        elim (member-All (λ x. (x ≡ root) ⊎ Descends qs root x) frontier parent f (ground arith)) [
          | inl q ↦ child (subst (λ y. is_child qs pid y ≡ true) q edge)
          | inr above ↦ below edge above
        ]

-- What is reached and is not to be expanded has its children among the descendants.
abbrev Expanded : Parents → ℕ → List ℕ → List ℕ → Type 0
Expanded qs root frontier ds =
    (a b : ℕ)
    → is_child qs a b ≡ true
    → (b == root || member ds b) ≡ true
    → (member frontier b || member ds a) ≡ true

mark-Expanded :
    (qs : Parents) (root : ℕ) (frontier ds : List ℕ)
    → Expanded qs root frontier ds
    → Expanded qs root (mark qs frontier ds []).1 (mark qs frontier ds []).0
unfolding member
mark-Expanded qs root frontier ds inv a b c reached =
    let m = mark-Marked qs qs frontier ds [] (λ a b c. c) in
    let seen : List ℕ = (mark qs frontier ds []).0 in
    let new : List ℕ = (mark qs frontier ds []).1 in
    elim (Bool-cases (member new b)) [
      | inl k ↦ ground arith
      | inr k ↦ elim (Bool-cases (b == root || member ds b)) [
        | inl before ↦ elim (Bool-cases (member frontier b)) [
          | inl front ↦ (let found = m.found a b c front in ground arith)
          | inr back ↦
              (let old = inv a b c before in let kept = m.kept a (ground arith) in ground arith)
        ]
        | inr later ↦ (let fresh = m.new b (ground arith) in ground arith)
      ]
    ]

-- With fuel above the measure the search returns, and what it returns are descendants, with all
-- their children.
search_descendants-finds :
    (fuel : ℕ) (qs : Parents) (root : ℕ) (frontier ds : List ℕ)
    → unseen qs ds + min 1 (length frontier) + 1 ≤ fuel
    → All (λ x. (x ≡ root) ⊎ Descends qs root x) frontier
    → All (Descends qs root) ds
    → Expanded qs root frontier ds
    → (r : List ℕ) × (search_descendants fuel qs frontier ds ≡ some r)
      × All (Descends qs root) r
      × Expanded qs root [] r
unfolding search_descendants
search_descendants-finds zero qs root frontier ds l f d inv = absurd (omega arith)
search_descendants-finds (suc fuel) qs root [] ds l f d inv = (ds, refl, d, inv)
search_descendants-finds (suc fuel) qs root (x ∷ frontier) ds l f d inv =
    let m = (mark-Marked qs qs (x ∷ frontier) ds [] (λ a b c. c)).measure in
    let sound = mark-Descends qs qs root (x ∷ frontier) ds [] (λ a b c. c) f d tt in
    search_descendants-finds fuel qs root (mark qs (x ∷ frontier) ds []).1
      (mark qs (x ∷ frontier) ds []).0 (omega arith) sound.ahead sound.below_root
      (mark-Expanded qs root (x ∷ frontier) ds inv)

unseen-length : (ps : Parents) (ds : List ℕ) → unseen ps ds ≤ length ps
unseen-length [] ds = omega arith
unseen-length ((pid, _) ∷ ps) ds = ground (arith, unseen-length ps ds)

Expanded-Descends :
    (qs : Parents) (root : ℕ) (r : List ℕ)
    → Expanded qs root [] r
    → (pid : ℕ) → Descends qs root pid
    → member r pid ≡ true
unfolding member
Expanded-Descends qs root r inv pid (child c) = inv pid root c (ground arith)
Expanded-Descends qs root r inv pid (below {parent = parent} c above) =
    let known = Expanded-Descends qs root r inv parent above in inv pid parent c (ground arith)

-- nothing but the root is reached at the start
Expanded-start : (ps : Parents) (root : ℕ) → Expanded ps root (root ∷ []) []
unfolding member
Expanded-start ps root a b c reached = ground arith

-- The search returns for every map of parents and every root, and a process is in the set that it
-- returns exactly when it descends from the root.
pub descendant_pids-member_iff :
    (ps : Parents) (root : ℕ)
    → (r : List ℕ) × (descendant_pids ps root ≡ some r)
      × ((pid : ℕ) → (member r pid ≡ true) ↔ Descends ps root pid)
unfolding descendant_pids
descendant_pids-member_iff ps root =
    let bound = unseen-length ps [] in
    let (r, returned, sound, complete) =
      search_descendants-finds (length ps + 2) ps root (root ∷ []) [] (omega arith) (inl refl, tt)
        tt (Expanded-start ps root) in
    (
      r,
      returned,
      λ pid. (
        λ h. member-All (Descends ps root) r pid sound h,
        Expanded-Descends ps root r complete pid,
      ),
    )
