-- ===== src/Fsp/Parent.antt =====
-- What `split_path` of `pengwin/src/fsp_impl/create.rs` gives to the resolution of paths.
use pengwin.Base.{
  ℕ, zero, suc, ◌≡◌, refl, sym, ◌∙◌, ap, inl, inr, ◌==◌, Bool-cases, ==_iff, List, [], ◌∷◌, ◌++◌,
  take, drop, Outcome, ok, err, panic, Option-cases, none, some,
}
use pengwin.Base.Fallible.{◌>>=◌}
use mathlib.Core.List.{append_assoc, append-nil}
use std.Path.{subst}
use pengwin.Device.{BlockDevice}
use pengwin.FsContext.{
  Ext4Fs, slash, root_inode, end_name, split_from, components, step, resolve_components,
  resolve_path_with_hops, resolve_path,
}
use pengwin.FsContext.Resolve.{
  split_from-append, resolve_components-append, resolve_components-other,
}
use pengwin.Fsp.{trim_slashes, last_slash, split_path, trim_at, named, parent_of}

-- A slash at the end, which is cut off with what it ends, adds no component.
split_from-trim_at :
    (name : List ℕ) (b : ℕ) (rest : List ℕ)
    → split_from name (trim_at b rest) ≡ split_from name (b ∷ rest)
unfolding split_from
split_from-trim_at name b [] = elim (Bool-cases (b == slash)) [
  | inl at_slash ↦ rw at_slash refl
  | inr inside ↦ rw (inside, inside) refl
]
split_from-trim_at name b (c ∷ rest) = refl

-- The slashes at the end add no component.
split_from-trim_slashes : (name p : List ℕ) → split_from name (trim_slashes p) ≡ split_from name p
unfolding split_from trim_slashes
split_from-trim_slashes name [] = refl
split_from-trim_slashes name (b ∷ p) =
    split_from-trim_at name b (trim_slashes p) ∙ (elim (Bool-cases (b == slash)) [
      | inl at_slash ↦ rw (at_slash, split_from-trim_slashes [] p) refl
      | inr inside ↦ rw (inside, split_from-trim_slashes (name ++ b ∷ []) p) refl
    ])

-- Without a slash there is one name.
split_from-one :
    (name p : List ℕ) → last_slash p ≡ none → split_from name p ≡ end_name (name ++ p) []
unfolding split_from last_slash
split_from-one name [] h = rw (split_from, append-nil name) refl
split_from-one name (b ∷ p) h = elim (Option-cases (last_slash p)) [
  | inl e ↦ elim (Bool-cases (b == slash)) [
    | inl at_slash ↦ let h' = rw (e, at_slash) at h in cc
    | inr inside ↦ rw inside (
        split_from-one (name ++ b ∷ []) p e
        ∙ ap (λ w. end_name w []) (append_assoc name (b ∷ []) p))
  ]
  | inr (i, e) ↦ let h' = rw e at h in cc
]

-- The last slash, with no slash behind it.
last_slash-some :
    (p : List ℕ) {pos : ℕ}
    → last_slash p ≡ some pos
    → (p ≡ take pos p ++ slash ∷ drop (suc pos) p) × (last_slash (drop (suc pos) p) ≡ none)
unfolding last_slash
last_slash-some [] h = cc
last_slash-some (b ∷ p) {pos} h = elim (Option-cases (last_slash p)) [
  | inl e ↦ elim (Bool-cases (b == slash)) [
    | inl at_slash ↦
        let h' = rw (e, at_slash) at h in
        let first : 0 ≡ pos = cc in
        let is : b ≡ slash = (==_iff b slash).0 at_slash in
        subst
          (λ n.
            (b ∷ p ≡ take n (b ∷ p) ++ slash ∷ drop (suc n) (b ∷ p))
            × (last_slash (drop (suc n) (b ∷ p)) ≡ none))
          first (ap (λ x. x ∷ p) is, e)
    | inr inside ↦ let h' = rw (e, inside) at h in cc
  ]
  | inr (i, e) ↦
      let h' = rw e at h in
      let next : suc i ≡ pos = cc in
      let (cut, free) = last_slash-some p e in
      subst
        (λ n.
          (b ∷ p ≡ take n (b ∷ p) ++ slash ∷ drop (suc n) (b ∷ p))
          × (last_slash (drop (suc n) (b ∷ p)) ≡ none))
        next (ap (λ xs. b ∷ xs) cut, free)
]

named-some :
    (dir q : List ℕ) {parent name : List ℕ}
    → named dir q ≡ some (parent, name)
    → (dir ≡ parent) × (q ≡ name) × (end_name q [] ≡ q ∷ [])
named-some dir [] h = cc
named-some dir (b ∷ q) h = (cc, cc, refl)

components-parent_of :
    (pos : ℕ) (p : List ℕ) → components (parent_of pos p) ≡ components (take pos p)
unfolding components split_from
components-parent_of zero p = refl
components-parent_of (suc pos) p = refl

-- The components of a path that splits are those of the parent with the name behind them.
pub split_path-components :
    (p : List ℕ) {parent name : List ℕ}
    → split_path p ≡ some (parent, name)
    → components p ≡ components parent ++ name ∷ []
unfolding split_path components
split_path-components p {parent} {name} h =
    let t = trim_slashes p in
    elim (Option-cases (last_slash t)) [
      | inl e ↦ let h' = rw e at h in cc
      | inr (pos, e) ↦
          let h' : named (parent_of pos t) (drop (suc pos) t) ≡ some (parent, name) = rw e at h in
          let (dir, last, one) = named-some (parent_of pos t) (drop (suc pos) t) h' in
          let (cut, free) = last_slash-some t e in
          sym (split_from-trim_slashes [] p)
          ∙ ap (split_from []) cut
          ∙ split_from-append [] (take pos t) (drop (suc pos) t)
          ∙ ap (λ xs. split_from [] (take pos t) ++ xs)
              (split_from-one [] (drop (suc pos) t) free ∙ one)
          ∙ ap (λ xs. xs ++ drop (suc pos) t ∷ [])
              (sym (components-parent_of pos t) ∙ ap components dir)
          ∙ ap (λ x. components parent ++ x ∷ []) last
    ]

>>=_ok : {E A : Type 0} (m : Outcome E A) → (m >>= ok) ≡ m
>>=_ok (ok a) = refl
>>=_ok (err e) = refl
>>=_ok panic = refl

-- Where a path splits and its parent resolves, the path resolves as the name in the parent does.
pub split_path-resolve_path :
    (lossy : List ℕ → List ℕ) (D : BlockDevice) (depth : ℕ) (dev : D.Dev) (fs : Ext4Fs) (p : List ℕ)
    {parent name : List ℕ} {n : ℕ}
    → split_path p ≡ some (parent, name)
    → resolve_path lossy D depth dev fs parent ≡ ok n
    → resolve_path lossy D depth dev fs p ≡ step lossy D depth dev fs p n name
unfolding resolve_path resolve_path_with_hops resolve_components
split_path-resolve_path lossy D depth dev fs p {parent} {name} {n} h there =
    let whole = resolve_components lossy D depth dev fs p root_inode in
    ap whole (split_path-components p h)
    ∙ resolve_components-append lossy D depth dev fs p root_inode (components parent) (name ∷ [])
    ∙ ap (λ m. m >>= λ k. resolve_components lossy D depth dev fs p k (name ∷ []))
        (resolve_components-other lossy D depth dev fs parent p root_inode (components parent)
          there)
    ∙ >>=_ok (step lossy D depth dev fs p n name)
