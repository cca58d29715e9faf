-- ===== src/Shutdown/Roots.antt =====
-- What a run of createMerkleTrees.ts has checked when it writes its file, and when it does write it.
use tribe.Base.{
  ℕ, ◌≡◌, refl, sym, ap, ◌∙◌, ◌≢◌, true, not, none, List, [], ◌∷◌, ◌++◌, String, Result, ok,
  >>=-eq-ok, >>=-ok, require-eq-ok, require-then-eq-ok, require-then-ok, length, any, All, Distinct,
  str_eq_iff, ◌==◌, ==_iff, arith,
}
use mathlib.Core.List.{append_assoc, append-nil}
use tribe.Js.{Object, keys, get, put, put_new, get-put, includes, AllEntries}
use tribe.Shutdown.CTokens.{c_tokens}
use tribe.Shutdown.CreateMerkleTrees.{
  MerkleLibrary, Balances, written, Settings, load_balances, validate_balances, leaves_of,
  check_leaves, can_hash_all, tree_of, build_roots, create,
}

module _ (m : MerkleLibrary) where
  -- Every leaf's proof verifies against the root of the tree.
  abbrev pub LeavesVerify : m.MerkleTree → List ℕ → Type 0
  LeavesVerify tree =
      All (λ leaf. m.verify tree (m.get_hex_proof tree leaf) leaf (m.get_root tree) ≡ true)

  check_leaves-eq-ok :
      (tree : m.MerkleTree) (leaves : List ℕ)
      → check_leaves m tree leaves ≡ ok tt
      → LeavesVerify tree leaves
  unfolding check_leaves
  check_leaves-eq-ok tree [] h = tt
  check_leaves-eq-ok tree (leaf ∷ leaves) h =
      let (checked, rest) =
        require-then-eq-ok (m.verify tree (m.get_hex_proof tree leaf) leaf (m.get_root tree)) _ _
          h in
      (checked, check_leaves-eq-ok tree leaves rest)

  check_leaves-ok :
      (tree : m.MerkleTree) (leaves : List ℕ)
      → LeavesVerify tree leaves
      → check_leaves m tree leaves ≡ ok tt
  unfolding check_leaves
  check_leaves-ok tree [] h = refl
  check_leaves-ok tree (leaf ∷ leaves) h =
      require-then-ok (m.verify tree (m.get_hex_proof tree leaf) leaf (m.get_root tree)) _ _ h.0
        (check_leaves-ok tree leaves h.1)

  -- The root of every token's tree, in the order of the tokens.
  abbrev pub roots_of : Balances → Object String
  roots_of [] = []
  roots_of ((token, holders) ∷ rest) = (token, m.get_hex_root (tree_of m holders)) ∷ roots_of rest

  abbrev pub TreeVerifies : String → Object String → Type 0
  TreeVerifies token holders =
      (can_hash_all m holders ≡ true) × LeavesVerify (tree_of m holders) (leaves_of m holders)

  -- A key that differs from all of `ks` and none of whose entries `acc` has.
  abbrev Fresh : Object String → Balances → Type 0
  Fresh acc balances = All (λ (e : String × Object String). get acc e.0 ≡ none) balances

  nothing-Fresh : (balances : Balances) → Fresh [] balances
  unfolding get
  nothing-Fresh [] = tt
  nothing-Fresh (e ∷ rest) = (refl, nothing-Fresh rest)

  put-Fresh :
      (rest : Balances) (acc : Object String) (token root : String)
      → All (λ k. token ≢ k) (keys rest)
      → Fresh acc rest
      → Fresh (put acc token root) rest
  put-Fresh [] acc token root d f = tt
  put-Fresh ((k, holders) ∷ rest) acc token root d f = (
    rw get-put (ground (arith, d.0, f.0, str_eq_iff token k)),
    put-Fresh rest acc token root d.1 f.1,
  )

  build_roots-eq :
      (balances : Balances) (acc : Object String)
      → Distinct (keys balances)
      → Fresh acc balances
      → AllEntries TreeVerifies balances
      → build_roots m balances acc ≡ ok (acc ++ roots_of balances)
  unfolding build_roots
  build_roots-eq [] acc d f t = ap ok (sym (append-nil acc))
  build_roots-eq ((token, holders) ∷ rest) acc d f t =
      let root = m.get_hex_root (tree_of m holders) in
      let later =
        build_roots-eq rest (put acc token root) d.1 (put-Fresh rest acc token root d.0 f.1) t.1 in
      require-then-ok (can_hash_all m holders) _ _ t.0.0 (
        >>=-ok (check_leaves m (tree_of m holders) (leaves_of m holders)) _ tt
          (check_leaves-ok (tree_of m holders) (leaves_of m holders) t.0.1)
          (later
            ∙ ap (λ o. ok (o ++ roots_of rest)) (put_new acc token root f.0)
            ∙ ap ok (append_assoc acc ((token, root) ∷ []) (roots_of rest))))

  build_roots_verified :
      (balances : Balances) (acc roots : Object String)
      → build_roots m balances acc ≡ ok roots
      → AllEntries TreeVerifies balances
  unfolding build_roots
  build_roots_verified [] acc roots h = tt
  build_roots_verified ((token, holders) ∷ rest) acc roots h =
      let (hashable, h1) = require-then-eq-ok (can_hash_all m holders) _ _ h in
      let (u, checked, later) =
        >>=-eq-ok (check_leaves m (tree_of m holders) (leaves_of m holders)) _ h1 in
      (
        (hashable, check_leaves-eq-ok (tree_of m holders) (leaves_of m holders) checked),
        build_roots_verified rest (put acc token (m.get_hex_root (tree_of m holders))) roots later,
      )

  -- All that the script checks of the balances it has read.
  pub record IsPublished (balances : Balances) (roots : Object String) : Type 0 where
    pub tokens : length (keys balances) ≡ 27
    pub known : All (λ k. includes c_tokens k ≡ true) (keys balances)
    pub trees : AllEntries TreeVerifies balances
    pub in_order : roots ≡ roots_of balances

all_included :
    (ks : List String)
    → not (any (λ key. not (includes c_tokens key)) ks) ≡ true
    → All (λ k. includes c_tokens k ≡ true) ks
all_included [] h = tt
all_included (k ∷ ks) h = (ground arith, all_included ks (ground arith))

included_all :
    (ks : List String)
    → All (λ k. includes c_tokens k ≡ true) ks
    → not (any (λ key. not (includes c_tokens key)) ks) ≡ true
included_all [] h = refl
included_all (k ∷ ks) h = ground (arith, h.0, included_all ks h.1)

module _ (m : MerkleLibrary) (read_json : String → Result Balances) (s : Settings) where
  -- A run that writes roots has read balances for exactly 27 tokens, each one of the known tokens;
  -- it has hashed every entry and verified the proof of every leaf of every tree; and it writes the root of each token's
  -- tree under the token, in the order of the balances. The keys of the balances are distinct, as
  -- those of a JSON object are.
  pub create-IsPublished :
      (balances : Balances) (file : String) (roots : Object String)
      → load_balances read_json s ≡ ok balances
      → Distinct (keys balances)
      → create m read_json s ≡ ok (written file roots)
      → IsPublished m balances roots
  unfolding create validate_balances
  create-IsPublished balances file roots loaded d h =
      let run = rw loaded at h in
      let (u, valid, built) = >>=-eq-ok (validate_balances balances) _ run in
      let (x, hx, out) = >>=-eq-ok (build_roots m balances []) _ built in
      let (size, known) = require-then-eq-ok (length (keys balances) == 27) _ _ valid in
      let trees = build_roots_verified m balances [] x hx in
      let same = build_roots-eq m balances [] d (nothing-Fresh m balances) trees in
      record {
        tokens = (==_iff _ _).0 size;
        known = all_included (keys balances) (require-eq-ok _ _ known);
        trees = trees;
        in_order = cc (hx, out, same);
      }

  -- Where the balances can be read and merged, are of 27 tokens, all known, every holder and amount
  -- can be hashed, and the library's proofs verify, the run writes the root of every token's tree to the file of the settings.
  pub create_succeeds :
      (balances : Balances)
      → load_balances read_json s ≡ ok balances
      → Distinct (keys balances)
      → length (keys balances) ≡ 27
      → All (λ k. includes c_tokens k ≡ true) (keys balances)
      → AllEntries (TreeVerifies m) balances
      → create m read_json s ≡ ok (written s.output_filename (roots_of m balances))
  unfolding create validate_balances
  create_succeeds balances loaded d size known trees =
      >>=-ok (load_balances read_json s) _ balances loaded (
        >>=-ok (validate_balances balances) _ tt
          (require-then-ok (length (keys balances) == 27) _ _ ((==_iff _ _).1 size)
            (rw (included_all (keys balances) known)))
          (>>=-ok (build_roots m balances []) _ (roots_of m balances)
            (build_roots-eq m balances [] d (nothing-Fresh m balances) trees) refl))
