-- ===== src/FsContext/Resolve.antt =====
-- The resolution of a path in `pengwin/src/fs_context.rs`, component by component.
use pengwin.Base.{
  ℕ, ◌≡◌, refl, sym, ◌∙◌, ap, inl, inr, false, ◌==◌, Bool-cases, List, [], ◌∷◌, ◌++◌, Outcome, ok,
  err, panic, >>=-eq-ok, ensure-eq-ok, Option-cases,
}
use pengwin.Base.Fallible.{◌>>=◌}
use pengwin.Inode.{is_dir}
use pengwin.Dir.{same_name}
use pengwin.Device.{BlockDevice}
use pengwin.FsContext.{
  Ext4FsError, Ext4Fs, slash, root_inode, end_name, split_from, not_a_directory, inode, lookup,
  enter, components, step, resolve_components, resolve_path_with_hops, resolve_path,
}

end_name-append :
    (name : List ℕ) (r s : List (List ℕ)) → end_name name (r ++ s) ≡ end_name name r ++ s
end_name-append [] r s = refl
end_name-append (b ∷ name) r s = refl

-- A slash separates names.
pub split_from-append :
    (name p q : List ℕ) → split_from name (p ++ slash ∷ q) ≡ split_from name p ++ split_from [] q
unfolding split_from
split_from-append [] [] q = refl
split_from-append (b ∷ name) [] q = refl
split_from-append name (b ∷ p) q = elim (Bool-cases (b == slash)) [
  | inl at_slash ↦
      rw (at_slash, split_from-append [] p q)
        (end_name-append name (split_from [] p) (split_from [] q))
  | inr inside ↦ rw inside (split_from-append (name ++ b ∷ []) p q)
]

>>=_assoc :
    {E : Type 0} {A B C : Type 0} (m : Outcome E A) (f : A → Outcome E B) (g : B → Outcome E C)
    → ((m >>= f) >>= g) ≡ (m >>= λ a. f a >>= g)
>>=_assoc (ok a) f g = refl
>>=_assoc (err e) f g = refl
>>=_assoc panic f g = refl

abbrev pub HasNoDotdot : List (List ℕ) → Type 0
HasNoDotdot [] = Unit
HasNoDotdot (x ∷ xs) = (same_name x (46 ∷ 46 ∷ []) ≡ false) × HasNoDotdot xs

module _ (lossy : List ℕ → List ℕ) (D : BlockDevice) (depth : ℕ) (dev : D.Dev) (fs : Ext4Fs) where
  pub resolve_components-append :
      (path : List ℕ) (current : ℕ) (xs ys : List (List ℕ))
      → resolve_components lossy D depth dev fs path current (xs ++ ys) ≡ (
          resolve_components lossy D depth dev fs path current xs >>= λ n.
          resolve_components lossy D depth dev fs path n ys)
  unfolding resolve_components
  resolve_components-append path current [] ys = refl
  resolve_components-append path current (x ∷ xs) ys =
      ap (λ (k : ℕ → Outcome Ext4FsError ℕ). step lossy D depth dev fs path current x >>= k)
        (λ i n. resolve_components-append path n xs ys i)
      ∙ sym (
          >>=_assoc (step lossy D depth dev fs path current x)
            (λ n. resolve_components lossy D depth dev fs path n xs)
            (λ n. resolve_components lossy D depth dev fs path n ys))

  -- The whole path stands in the errors only.
  enter-other :
      (path path' : List ℕ) (current : ℕ) (x : List ℕ) {n : ℕ}
      → enter lossy D depth dev fs path current x ≡ ok n
      → enter lossy D depth dev fs path' current x ≡ ok n
  unfolding enter
  enter-other path path' current x {n} h =
      let (dir, e₁, h₁) = >>=-eq-ok (inode lossy D depth dev fs current) _ h in
      let (is, h₂) = ensure-eq-ok (is_dir dir) (not_a_directory x) _ h₁ in
      let (found, e₂, h₃) = >>=-eq-ok (lookup lossy D depth dev fs dir x) _ h₂ in
      elim (Option-cases found) [
        | inl missing ↦ let h₄ = rw missing at h₃ in cc
        | inr (m, there) ↦ let h₄ = rw there at h₃ in rw (enter, e₁, is, e₂, there) h₄
      ]

  step-other :
      (path path' : List ℕ) (current : ℕ) (x : List ℕ) {n : ℕ}
      → step lossy D depth dev fs path current x ≡ ok n
      → step lossy D depth dev fs path' current x ≡ ok n
  unfolding step
  step-other path path' current x h = elim (Bool-cases (same_name x (46 ∷ 46 ∷ []))) [
    | inl up ↦ let h' = rw (step, up) at h in cc
    | inr not_up ↦ elim (Bool-cases (same_name x (46 ∷ []))) [
      | inl here ↦ rw (step, not_up, here) (rw (step, not_up, here) at h)
      | inr name ↦
          rw (step, not_up, name) (enter-other path path' current x (rw (step, not_up, name) at h))
    ]
  ]

  pub resolve_components-other :
      (path path' : List ℕ) (current : ℕ) (xs : List (List ℕ)) {n : ℕ}
      → resolve_components lossy D depth dev fs path current xs ≡ ok n
      → resolve_components lossy D depth dev fs path' current xs ≡ ok n
  unfolding resolve_components
  resolve_components-other path path' current [] h = h
  resolve_components-other path path' current (x ∷ xs) h =
      let (next, e, h₁) = >>=-eq-ok (step lossy D depth dev fs path current x) _ h in
      rw (resolve_components, step-other path path' current x e)
        (resolve_components-other path path' next xs h₁)

  -- Where a path resolves to an inode, the path that goes on behind a slash resolves as its
  -- further components do from that inode, errors included.
  pub resolve_path-append :
      (p q : List ℕ) {n : ℕ}
      → resolve_path lossy D depth dev fs p ≡ ok n
      → resolve_path lossy D depth dev fs (p ++ slash ∷ q)
        ≡ resolve_components lossy D depth dev fs (p ++ slash ∷ q) n (components q)
  unfolding resolve_path resolve_path_with_hops components
  resolve_path-append p q h =
      let path = p ++ slash ∷ q in
      rw
        (
          split_from-append [] p q,
          resolve_components-append path root_inode (split_from [] p) (split_from [] q),
          resolve_components-other p path root_inode (split_from [] p) h,
        )
        refl

  -- A path that resolves has no component `..`.
  no_dotdot :
      (path : List ℕ) (current : ℕ) (xs : List (List ℕ)) {n : ℕ}
      → resolve_components lossy D depth dev fs path current xs ≡ ok n
      → HasNoDotdot xs
  unfolding resolve_components step
  no_dotdot path current [] h = tt
  no_dotdot path current (x ∷ xs) h =
      let (next, e, h₁) = >>=-eq-ok (step lossy D depth dev fs path current x) _ h in
      elim (Bool-cases (same_name x (46 ∷ 46 ∷ []))) [
        | inl up ↦ let e' = rw (step, up) at e in cc
        | inr not_up ↦ (not_up, no_dotdot path next xs h₁)
      ]

  -- A path that resolves to an inode has no component `..`.
  pub resolve_path-HasNoDotdot :
      (p : List ℕ) {n : ℕ} → resolve_path lossy D depth dev fs p ≡ ok n → HasNoDotdot (components p)
  unfolding resolve_path resolve_path_with_hops
  resolve_path-HasNoDotdot p h = no_dotdot p root_inode (components p) h
