-- ===== src/Basic/Parser.antt =====
-- project03-kweng/src/parser.c. The stream is the bytes of the file and a position in it; a char is
-- 0 at the end of the file, as advance returns it; no byte of a file is 0.
pub mod Builds
pub mod Trees
pub mod Hang
mod Tests
use cs_24_coursework.Prelude.{
  ℕ, zero, suc, ◌+◌, ◌-◌, Bool, true, false, ◌&&◌, ◌||◌, Option, none, some, List, [], ◌∷◌, ◌++◌,
  ltb, leb, ◌==◌, if◌then◌else◌, length, drop,
}
use cs_24_coursework.Basic.Ast.{
  Text, text_eq, Node, init_num_node, init_binary_node, init_var_node, init_print_node,
  init_let_node, init_label_node, init_goto_node, init_cond_node,
}

abbrev pub max_keyword_length : ℕ
max_keyword_length = 100

abbrev pub is_space : ℕ → Bool
is_space c = (c == 32) || (leb 9 c && leb c 13)

abbrev pub is_digit : ℕ → Bool
is_digit c = leb b'0' c && leb c b'9'

abbrev pub is_variable_name : ℕ → Bool
is_variable_name c = leb b'A' c && leb c b'Z'

abbrev pub is_number_start : ℕ → Bool
is_number_start c = (c == b'+') || ((c == b'-') || is_digit c)

abbrev pub is_expression_start : ℕ → Bool
is_expression_start c = (c == b'(') || (is_variable_name c || is_number_start c)

abbrev pub is_operator : ℕ → Bool
is_operator c =
    (c == b'+')
    || ((c == b'-')
        || ((c == b'*')
            || ((c == b'/')
                || ((c == b'<')
                    || ((c == b'=') || ((c == b'>') || ((c == b'(') || (c == b')'))))))))

-- The operators of term, expression and comparison.
abbrev pub is_factor_operator : ℕ → Bool
is_factor_operator c = (c == b'*') || (c == b'/')

abbrev pub is_term_operator : ℕ → Bool
is_term_operator c = (c == b'+') || (c == b'-')

abbrev pub is_comparison_sign : ℕ → Bool
is_comparison_sign c = (c == b'<') || ((c == b'=') || (c == b'>'))

-- The value and the new position; a fault is a write behind the buffer of a word, or strcmp of NULL.
pub data Parse (A : Type 0) : Type 0 where
  parsed : A → ℕ → Parse A
  fault out_of_fuel : Parse A

abbrev pub and_then : {A B : Type 0} → Parse A → (A → ℕ → Parse B) → Parse B
and_then (parsed a p) k = k a p
and_then fault k = fault
and_then out_of_fuel k = out_of_fuel

abbrev pub rewind_one : ℕ → ℕ
rewind_one pos = pos - 1

-- The loops over the bytes from the position on.
abbrev pub advance_loop : List ℕ → ℕ → ℕ × ℕ
advance_loop [] pos = (0, pos)
advance_loop (c ∷ cs) pos = if is_space c then advance_loop cs (pos + 1) else (c, pos + 1)

abbrev pub end_word : Text → ℕ → Parse (Option Text)
end_word word pos = if leb (length word) max_keyword_length then parsed (some word) pos else fault

abbrev pub until_loop : List ℕ → Text → ℕ → Parse (Option Text)
until_loop [] word pos = parsed none pos
until_loop (c ∷ cs) word pos =
    if is_operator c && ltb 0 (length word)
    then end_word word (rewind_one (pos + 1))
    else if is_space c
    then end_word word (pos + 1)
    else if leb (length word) max_keyword_length
    then until_loop cs (word ++ c ∷ []) (pos + 1)
    else fault

abbrev pub skip_loop : List ℕ → ℕ → ℕ
skip_loop [] pos = pos
skip_loop (c ∷ cs) pos = if c == 10 then pos + 1 else skip_loop cs (pos + 1)

-- `next` is the char of an advance, and the position behind it.
abbrev pub is_nul : Text → Bool
is_nul [] = true
is_nul (c ∷ cs) = c == 0

abbrev pub is_comment : Text → Bool
is_comment [] = false
is_comment (c ∷ cs) = c == b'#'

abbrev pub goto_word : Text
goto_word = b'G' ∷ b'O' ∷ b'T' ∷ b'O' ∷ []

abbrev pub print_word : Text
print_word = b'P' ∷ b'R' ∷ b'I' ∷ b'N' ∷ b'T' ∷ []

abbrev pub let_word : Text
let_word = b'L' ∷ b'E' ∷ b'T' ∷ []

abbrev pub if_word : Text
if_word = b'I' ∷ b'F' ∷ []

abbrev pub then_word : Text
then_word = b'T' ∷ b'H' ∷ b'E' ∷ b'N' ∷ []

-- strtol of a word, and the file.
module _ (strtol : Text → ℕ) (file : List ℕ) where
  abbrev pub advance : ℕ → ℕ × ℕ
  advance pos = advance_loop (drop pos file) pos

  abbrev pub peek : ℕ → ℕ × ℕ
  peek pos = let next = advance pos in (next.0, rewind_one next.1)

  unfoldable pub advance_until_separator : ℕ → Parse (Option Text)
  advance_until_separator pos = until_loop (drop pos file) [] pos

  unfoldable pub skip_line : ℕ → ℕ
  skip_line pos = skip_loop (drop (rewind_one pos) file) (rewind_one pos)

  -- `expr` is the call of expression.
  module _ (expr : ℕ → Parse (Option Node)) where
    abbrev pub close : Option Node → ℕ → Parse (Option Node)
    close node pos =
        let next = advance pos in
        if next.0 == b')' then parsed node next.1 else parsed none (rewind_one next.1)

    unfoldable pub factor : ℕ → Parse (Option Node)
    factor pos =
        let next = peek pos in
        if next.0 == 0
        then parsed none next.1
        else if next.0 == b'('
        then and_then (expr (advance next.1).1) close
        else if is_variable_name next.0
        then parsed (init_var_node (advance next.1).0) (advance next.1).1
        else if is_number_start next.0
        then and_then (advance_until_separator next.1) (λ s p. parsed (init_num_node strtol s) p)
        else parsed none next.1

    -- The loops of term and expression; `operand` reads what stands behind the operator.
    unfoldable pub operator_loop :
        (ℕ → Bool) → (ℕ → Parse (Option Node)) → ℕ → Option Node → ℕ → Parse (Option Node)
    operator_loop is_op operand zero result pos = out_of_fuel
    operator_loop is_op operand (suc n) result pos =
        let next = advance pos in
        if is_op next.0
        then and_then (operand next.1)
            (λ right p. operator_loop is_op operand n (init_binary_node next.0 result right) p)
        else parsed result (rewind_one next.1)

    unfoldable pub term : ℕ → ℕ → Parse (Option Node)
    term n pos =
        and_then (factor pos) (λ result p. operator_loop is_factor_operator factor n result p)

  -- The fuel bounds the depth of the parentheses and the rounds of each loop.
  unfoldable pub expression : ℕ → ℕ → Parse (Option Node)
  expression zero pos = out_of_fuel
  expression (suc n) pos =
      let next = peek pos in
      if is_expression_start next.0
      then and_then (term (expression n) n next.1) (λ result p.
        operator_loop (expression n) is_term_operator (term (expression n) n) n result p)
      else parsed none next.1

  unfoldable pub comparison : ℕ → ℕ → Parse (Option Node)
  comparison n pos = and_then (expression n pos) λ left p.
      let next = advance p in
      if is_comparison_sign next.0
      then and_then (expression n next.1) (λ right q. parsed (init_binary_node next.0 left right) q)
      else parsed none next.1

  unfoldable pub let_statement : ℕ → ℕ → Parse (Option Node)
  let_statement n pos =
      let name = advance pos in
      let sign = advance name.1 in
      if is_variable_name name.0
      then (if sign.0 == b'='
          then and_then (expression n sign.1) (λ value p. parsed (init_let_node name.0 value) p)
          else parsed none sign.1)
      else parsed none name.1

  -- `branch` is the call of statement behind THEN.
  unfoldable pub then_branch :
      (ℕ → Parse (Option Node)) → Option Node → Option Text → ℕ → Parse (Option Node)
  then_branch branch condition none p = fault
  then_branch branch condition (some word) p =
      if text_eq then_word word
      then and_then (branch p) (λ body q. parsed (init_cond_node condition body) q)
      else parsed none p

  unfoldable pub if_statement : (ℕ → Parse (Option Node)) → ℕ → ℕ → Parse (Option Node)
  if_statement branch n pos =
      and_then (comparison n pos)
        λ condition p. and_then (advance_until_separator p) (then_branch branch condition)

  unfoldable pub keyword : (ℕ → Parse (Option Node)) → ℕ → Option Text → ℕ → Parse (Option Node)
  keyword branch n none pos = parsed none pos
  keyword branch n (some word) pos =
      if is_nul word
      then parsed none pos
      else if is_comment word
      then parsed none (skip_line pos)
      else if text_eq goto_word word
      then and_then (advance_until_separator pos) (λ l p. parsed (init_goto_node l) p)
      else if text_eq print_word word
      then and_then (expression n pos) (λ e p. parsed (init_print_node e) p)
      else if text_eq let_word word
      then let_statement n pos
      else if text_eq if_word word
      then if_statement branch n pos
      else parsed (init_label_node (some word)) pos

  unfoldable pub statement : ℕ → ℕ → Parse (Option Node)
  statement zero pos = out_of_fuel
  statement (suc n) pos = and_then (advance_until_separator pos) (keyword (statement n) n)

  unfoldable pub parse : ℕ → ℕ → Parse (Option Node)
  parse n pos = statement n pos
