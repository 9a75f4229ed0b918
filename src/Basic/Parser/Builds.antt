-- ===== src/Basic/Parser/Builds.antt =====
-- What the parts of the parser give back: a tree of a kind, or no tree.
use cs_24_coursework.Prelude.{
  ℕ, zero, suc, ◌≡◌, ◌≢◌, ◌⊎◌, refl, sym, ap, ◌∙◌, ◌+◌, ◌-◌, [], ◌∷◌, drop, inl, inr, Bool, true,
  false, Option, none, some, List, if◌then◌else◌, Bool-cases, arith, ◌||◌, ◌==◌,
}
use cs_24_coursework.Basic.Ast.{Text, Node, init_num_node, init_binary_node, init_var_node}
use cs_24_coursework.Basic.Compile.{is_arithmetic, is_comparison}
use cs_24_coursework.Basic.Semantics.{IsVar, IsExpr}
use cs_24_coursework.Basic.Parser.{
  is_space, advance_loop, Parse, parsed, fault, out_of_fuel, and_then, is_variable_name,
}

-- A node that is given back is one of the trees.
pub data Builds (P : Node → Type 0) : Parse (Option Node) → Type 0 where
  builds : {t : Node} {pos : ℕ} → P t → Builds P (parsed (some t) pos)
  null : {pos : ℕ} → Builds P (parsed none pos)
  faults : Builds P fault
  no_fuel : Builds P out_of_fuel

abbrev pub Tree : (Node → Type 0) → Option Node → Type 0
Tree P none = Unit {0}
Tree P (some t) = P t

pub Builds-parsed :
    {P : Node → Type 0} (o : Option Node) {pos : ℕ} → Tree P o → Builds P (parsed o pos)
Builds-parsed none h = null
Builds-parsed (some t) h = builds h

pub Builds-some : {P : Node → Type 0} {t : Node} {pos : ℕ} → Builds P (parsed (some t) pos) → P t
Builds-some (builds h) = h

pub Builds-then :
    {P Q : Node → Type 0} {r : Parse (Option Node)} {k : Option Node → ℕ → Parse (Option Node)}
    → Builds P r
    → ((o : Option Node) (pos : ℕ) → Tree P o → Builds Q (k o pos))
    → Builds Q (and_then r k)
Builds-then (builds h) f = f (some _) _ h
Builds-then null f = f none _ tt
Builds-then faults f = faults
Builds-then no_fuel f = no_fuel

pub Builds-word :
    {Q : Node → Type 0} (r : Parse (Option Text)) {k : Option Text → ℕ → Parse (Option Node)}
    → ((o : Option Text) (pos : ℕ) → Builds Q (k o pos))
    → Builds Q (and_then r k)
Builds-word (parsed o pos) f = f o pos
Builds-word fault f = faults
Builds-word out_of_fuel f = no_fuel

pub Builds-if :
    {P : Node → Type 0} (b : Bool) {x y : Parse (Option Node)}
    → (b ≡ true → Builds P x)
    → Builds P y
    → Builds P (if b then x else y)
Builds-if true f h = f refl
Builds-if false f h = h

-- After a peek that does not find the end of the file, an advance gives the same char.
drop-nil : (n : ℕ) → drop {A = ℕ} n [] ≡ []
drop-nil zero = refl
drop-nil (suc n) = refl

pub drop-drop : (i k n : ℕ) (xs : List ℕ) → n ≡ k + i → drop i (drop k xs) ≡ drop n xs
drop-drop i zero n xs e = let h : i ≡ n = omega arith in ap (λ m. drop m xs) h
drop-drop i (suc k) n [] e = drop-nil i ∙ sym (drop-nil n)
drop-drop i (suc k) zero (x ∷ xs) e = absurd (omega arith)
drop-drop i (suc k) (suc n) (x ∷ xs) e = drop-drop i k n xs (omega arith)

pub data Found (cs : List ℕ) (pos : ℕ) (next : ℕ × ℕ) : Type 0 where
  at_end : next.0 ≡ 0 → Found cs pos next
  at_char :
      (k : ℕ) (rest : List ℕ)
      → next.1 ≡ pos + suc k
      → drop k cs ≡ next.0 ∷ rest
      → is_space next.0 ≡ false
      → Found cs pos next

pub advance_loop-Found : (cs : List ℕ) (pos : ℕ) → Found cs pos (advance_loop cs pos)
advance_loop-Found [] pos = at_end refl
advance_loop-Found (c ∷ cs) pos = elim (Bool-cases (is_space c)) [
  | inl e ↦ rw e (later (advance_loop-Found cs (pos + 1)))
  | inr e ↦ rw e (at_char 0 cs (omega arith) refl e)
]
  where
    later : {next : ℕ × ℕ} → Found cs (pos + 1) next → Found (c ∷ cs) pos next
    later (at_end z) = at_end z
    later (at_char k rest p d q) = at_char (suc k) rest (omega arith) d q

pub init_binary_node-Tree :
    (op : ℕ) (l r : Option Node)
    → (is_arithmetic op || is_comparison op) ≡ true
    → Tree IsExpr l
    → Tree IsExpr r
    → Tree IsExpr (init_binary_node op l r)
unfolding init_binary_node
init_binary_node-Tree op none r h p q = tt
init_binary_node-Tree op (some l) none h p q = tt
init_binary_node-Tree op (some l) (some r) h p q = (h, p, q)

pub init_num_node-Tree :
    (strtol : Text → ℕ) (s : Option Text) → Tree IsExpr (init_num_node strtol s)
unfolding init_num_node
init_num_node-Tree strtol none = tt
init_num_node-Tree strtol (some s) = tt

pub is_variable_name-IsVar : (x : ℕ) → is_variable_name x ≡ true → IsVar x
is_variable_name-IsVar x h = ground arith

pub init_var_node-Tree : (x : ℕ) → is_variable_name x ≡ true → Tree IsExpr (init_var_node x)
unfolding init_var_node
init_var_node-Tree x h =
    let v = is_variable_name-IsVar x h in
    elim (Bool-cases (x == 0)) [ inl e ↦ rw e tt | inr e ↦ rw e v ]

pub advance_loop_again :
    (file : List ℕ) (pos : ℕ) {next : ℕ × ℕ}
    → Found (drop pos file) pos next
    → (next.0 ≡ 0) ⊎ ((advance_loop (drop (next.1 - 1) file) (next.1 - 1)).0 ≡ next.0)
advance_loop_again file pos (at_end z) = inl z
advance_loop_again file pos {next} (at_char k rest p d q) =
    let e : drop (next.1 - 1) file ≡ next.0 ∷ rest =
      sym (drop-drop k pos (next.1 - 1) file (omega arith)) ∙ d in
    inr (rw e (rw q refl))

pub Builds-zero :
    {P : Node → Type 0} (c : ℕ) {x y : Parse (Option Node)}
    → Builds P x
    → ((c ≢ 0) → Builds P y)
    → Builds P (if c == 0 then x else y)
Builds-zero c h f = elim (Bool-cases (c == 0)) [ inl e ↦ rw e h | inr e ↦ rw e (f (ground arith)) ]
