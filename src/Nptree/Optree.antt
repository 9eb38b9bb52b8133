-- ===== src/Nptree/Optree.antt =====
-- What src/fastipc/nptree/schema.py uses of optree: a tree is taken apart into its structure and
-- its leaves, and `tree_map` calls a function on the leaves from the first to the last and puts
-- the results in their places. The function may raise, and may change variables outside itself.
use pyfastipc.Base.{
  ◌≡◌, ◌↔◌, Bool, true, List, [], ◌∷◌, Result, ok, err, value_error, ◌>>=◌, length,
}

pub record Optree : Type 1 where
  pub Tree : Type 0 → Type 0
  pub Structure : Type 0
  pub tree_structure : {A : Type 0} → Tree A → Structure
  pub tree_leaves : {A : Type 0} → Tree A → List A
  pub tree_unflatten : {A : Type 0} → Structure → List A → Tree A
  -- `==` on structures
  pub structure_eq : Structure → Structure → Bool

-- A structure fixes the number of leaves, and any leaves of that number fit it.
pub record IsOptree (op : Optree) : Type 1 where
  pub structure_eq_iff : (s t : op.Structure) → (op.structure_eq s t ≡ true) ↔ (s ≡ t)
  pub structure-length :
      {A B : Type 0} (t : op.Tree A) (u : op.Tree B)
      → op.tree_structure t ≡ op.tree_structure u
      → length (op.tree_leaves t) ≡ length (op.tree_leaves u)
  pub leaves-unflatten :
      {A B : Type 0} (t : op.Tree A) (bs : List B)
      → length (op.tree_leaves t) ≡ length bs
      → op.tree_leaves (op.tree_unflatten (op.tree_structure t) bs) ≡ bs
  pub structure-unflatten :
      {A B : Type 0} (t : op.Tree A) (bs : List B)
      → length (op.tree_leaves t) ≡ length bs
      → op.tree_structure (op.tree_unflatten (op.tree_structure t) bs) ≡ op.tree_structure t

-- Calls on the leaves in order; `S` is the state outside the function.
unfoldable pub map_leaves :
    {S A B : Type 0} → (S → A → Result (B × S)) → S → List A → Result (List B × S)
map_leaves f s [] = ok ([], s)
map_leaves f s (a ∷ l) = do (b, s') ← f s a; (bs, s'') ← map_leaves f s' l; ok (b ∷ bs, s'')

-- The same over the leaves of two trees of one structure.
unfoldable pub map_leaves₂ :
    {S A B : Type 0} → (S → A → B → Result S) → S → List A → List B → Result S
map_leaves₂ f s [] [] = ok s
map_leaves₂ f s [] (b ∷ bs) = err value_error
map_leaves₂ f s (a ∷ l) [] = err value_error
map_leaves₂ f s (a ∷ l) (b ∷ bs) = do s' ← f s a b; map_leaves₂ f s' l bs

module _ (op : Optree) where
  open op use {Tree, tree_structure, tree_leaves, tree_unflatten}

  -- `optree.tree_map(f, tree)`
  unfoldable pub tree_map :
      {S A B : Type 0} → (S → A → Result (B × S)) → S → Tree A → Result (Tree B × S)
  tree_map f s t = do
    (bs, s') ← map_leaves f s (tree_leaves t)
    ok (tree_unflatten (tree_structure t) bs, s')

  -- `optree.tree_map(f, tree, other)`, called for its effects
  unfoldable pub tree_map₂ :
      {S A B : Type 0} → (S → A → B → Result S) → S → Tree A → Tree B → Result S
  tree_map₂ f s t u = map_leaves₂ f s (tree_leaves t) (tree_leaves u)
