-- ===== src/Subpython/Eval/Tests.antt =====
-- Programs of the interpreter, run in a pool of 4096 bytes.
use cs_24_coursework.Prelude.{
  ℕ, ◌-◌, ◌^◌, ◌≡◌, ◌≢◌, refl, ap, get_or, Option, none, some, List, [], ◌∷◌, ◌==◌, if◌then◌else◌,
  arith,
}
use cs_24_coursework.Prelude.Answer.{Answer, answer, fault, no_fuel}
use cs_24_coursework.Subpython.Refs.{
  Reference, ref, null_ref, Kind, val_none, val_integer, Value, init_refs, find_unused,
  assign_reference, make_ref, deref, recurse, incref, for_each, release, drop_reference, decref,
}
use cs_24_coursework.Subpython.Run.{
  Interp, Run, ◌>>=◌, ◌>>◌, Exception, exc_index_error, kind_of, exception_set, exception_occurred,
  address_of, set_kind, make_reference, take_reference, give_back,
}
use cs_24_coursework.Subpython.Values.{
  op_add, op_divide, comp_lt, make_reference_none, make_reference_bool, make_reference_int,
  make_reference_string, make_reference_string_concat, make_reference_list, make_reference_dict,
  make_reference_refarray, obj_of, type_of, singleton_to_ref_borrow, singleton_to_ref, bool_ref,
  singleton_bool, reference_bits, singleton_hash, singleton_cmp, integer_bool, integer_cmp,
  integer_builtin, string_bool, string_hash_loop, string_hash, strcmp,
}
use cs_24_coursework.Subpython.Eval.{
  Node, stmt_sequence, stmt_assign, stmt_del, stmt_while, expr_literal_string, expr_literal_integer,
  expr_literal_list, expr_literal_dict, expr_identifier, expr_builtin, expr_call, expr_subscript,
  some_node, NodeList, no_nodes, node_list, ast_nodelist_length, find_global, put_global,
  remove_global, globals_get, globals_set, globals_delete, eval_not_test, eval_short_circuit,
  eval_builtin, eval_subscript,
}
use cs_24_coursework.Subpython.Eval.Expressions.{
  eval_expr, fill_list, eval_literal_list, add_entry, fill_dict, eval_literal_dict, eval_arguments,
  give_back_all, eval_call_len, eval_call_bool, call_function, eval_call,
}
use cs_24_coursework.Subpython.Eval.Statements.{
  eval_init, eval_root, eval_stmt_assign, eval_stmt_del, eval_statements, with_condition,
  eval_stmt_while, eval_stmt,
}
use cs_24_coursework.Subpython.Pool.{
  mm_init, mm_malloc, search_fit, take_block, mm_free, is_pool_address,
}
use cs_24_coursework.Subpython.Lists.{
  list_coerce, index_of, list_coerce_subscript, list_refarray, list_len, list_bool, cmp_loop,
  list_cmp, eq_loop, list_eq, list_subscr_get, put_element, list_subscr_set, move_up, delete_at,
  list_subscr_del,
}
use cs_24_coursework.Subpython.Dicts.{
  ref_hash, dict_coerce, dict_at, find_loop, keys_find, rehash, dict_upsize, dict_maybe_upsize,
  dict_len, dict_bool, dict_subscr_get,
}
use cs_24_coursework.Subpython.Dicts.Change.{
  overwrite, occupy, dict_subscr_set, dict_subscr_del, eq_slots, dict_eq,
}
use cs_24_coursework.Subpython.Types.{
  ref_bool, ref_len, ref_builtin, compare, ref_compare, ref_eq, ref_subscr_get, ref_subscr_set,
  ref_subscr_del,
}
use cs_24_coursework.Word.{add_w, sub_w, mul_w, slt, sdiv, srem}
use cs_24_coursework.Subpython.Pool.{block}
use cs_24_coursework.Subpython.Eval.{remove_global}
use cs_24_coursework.Subpython.Eval.Globals.{globals_set-find_global, remove_global-find_global}

abbrev no_value : ℕ → Value
no_value a = record { kind = val_none; ref_count = 0 }

abbrev start : Interp
start = record {
  refs = init_refs no_value 4096 4096;
  none_ref = null_ref;
  true_ref = null_ref;
  false_ref = null_ref;
  exception = none;
  global_vars = [];
}

abbrev other : List ℕ → List Reference → Option (Run Reference)
other name args = none

-- What a program gives: the value and the exception.
abbrev seen : Answer (Kind × Interp) → Answer (Kind × Option Exception)
seen (answer (k, s)) = answer (k, s.exception)
seen fault = fault
seen no_fuel = no_fuel

abbrev program : NodeList → Answer (Kind × Option Exception)
program nodes = seen ((eval_init 20 >> eval_root other 20 (stmt_sequence nodes) >>= kind_of) start)

abbrev x : Node
x = expr_identifier (b'x' ∷ [])

abbrev int : ℕ → Node
int n = expr_literal_integer n

abbrev minus_two : ℕ
minus_two = 2 ^ 64 - 2

-- x = [1, 2, 3]; del x[-2]; x[1] + len(x)
abbrev deletes : NodeList
deletes =
    node_list
      (stmt_assign x
        (expr_literal_list (node_list (int 1) (node_list (int 2) (node_list (int 3) no_nodes)))))
      (node_list (stmt_del (expr_subscript x (int minus_two))) (
        node_list
          (expr_builtin op_add (expr_subscript x (int 1)) (
            some_node
              (expr_call (expr_identifier (b'l' ∷ b'e' ∷ b'n' ∷ [])) (node_list x no_nodes))))
          no_nodes))

abbrev block_of : Node → Node → NodeList
block_of a b = node_list a (node_list b no_nodes)

abbrev key : ℕ → Node
key c = expr_literal_string (c ∷ [])

-- x = {"a": 1}; x["b"] = 2; x["b"]
abbrev sets_key : NodeList
sets_key =
    node_list
      (stmt_assign x
        (expr_literal_dict (node_list (key b'a') no_nodes) (node_list (int 1) no_nodes)))
      (block_of (stmt_assign (expr_subscript x (key b'b')) (int 2)) (expr_subscript x (key b'b')))

-- x = 0; while x < 3: x = x + 1; x
abbrev counts : NodeList
counts = node_list (stmt_assign x (int 0)) (
    block_of
      (stmt_while (expr_builtin comp_lt x (some_node (int 3)))
        (stmt_assign x (expr_builtin op_add x (some_node (int 1)))))
      x)

-- x = [1]; x[1]
abbrev out_of_bounds : NodeList
out_of_bounds =
    block_of (stmt_assign x (expr_literal_list (node_list (int 1) no_nodes)))
      (expr_subscript x (int 1))

-- 7 / 0
abbrev divides : NodeList
divides = node_list (expr_builtin op_divide (int 7) (some_node (int 0))) no_nodes

-- {15: 1, 31: 2}: both keys belong to the last of 16 slots.
abbrev collides : NodeList
collides =
    node_list (expr_literal_dict (block_of (int 15) (int 31)) (block_of (int 1) (int 2))) no_nodes

programs :
    (program deletes ≡ answer (val_integer 5, none))
    × (program sets_key ≡ answer (val_integer 2, none))
    × (program counts ≡ answer (val_integer 3, none))
    × (program out_of_bounds ≡ answer (val_none, some exc_index_error))
    × (program divides ≡ fault)
    × (program collides ≡ fault)
unfolding mm_init mm_malloc search_fit take_block mm_free is_pool_address find_unused
    assign_reference make_ref deref recurse incref for_each release drop_reference decref
    exception_set exception_occurred address_of kind_of set_kind make_reference take_reference
    give_back make_reference_none make_reference_bool make_reference_int make_reference_string
    make_reference_string_concat make_reference_list make_reference_dict make_reference_refarray
    obj_of type_of singleton_to_ref_borrow singleton_to_ref bool_ref singleton_bool reference_bits
    singleton_hash singleton_cmp integer_bool integer_cmp integer_builtin string_bool
    string_hash_loop string_hash strcmp list_coerce index_of list_coerce_subscript list_refarray
    list_len list_bool cmp_loop list_cmp eq_loop list_eq list_subscr_get put_element list_subscr_set
    move_up delete_at list_subscr_del ref_hash dict_coerce dict_at find_loop keys_find rehash
    dict_upsize dict_maybe_upsize dict_len dict_bool dict_subscr_get overwrite occupy
    dict_subscr_set dict_subscr_del eq_slots dict_eq ref_bool ref_len ref_builtin compare
    ref_compare ref_eq ref_subscr_get ref_subscr_set ref_subscr_del ast_nodelist_length find_global
    put_global remove_global globals_get globals_set globals_delete eval_not_test eval_short_circuit
    eval_builtin eval_subscript fill_list eval_literal_list add_entry fill_dict eval_literal_dict
    eval_arguments give_back_all eval_call_len eval_call_bool call_function eval_call eval_expr
    eval_init eval_stmt_assign eval_stmt_del eval_statements with_condition eval_stmt_while
    eval_stmt eval_root add_w sub_w mul_w slt sdiv srem init_refs
programs = (refl, refl, refl, refl, refl, refl)

-- A name set in an empty environment, to a value that is there.
abbrev one_value : Interp
one_value = record start {
  refs = record {
    pool = record { memory_pool = 4096; memory_size = 4096; free_list = [] };
    values = λ a. record { kind = val_integer 7; ref_count = 1 };
    ref_table = some (block 4096 32) ∷ [];
    max_refs = 8;
  };
}

abbrev with_x : Interp
with_x = record one_value {
  refs = record {
    pool = record { memory_pool = 4096; memory_size = 4096; free_list = [] };
    values = λ a.
        if a == 4096
        then record { kind = val_integer 7; ref_count = 2 }
        else record { kind = val_integer 7; ref_count = 1 };
    ref_table = some (block 4096 32) ∷ [];
    max_refs = 8;
  };
  global_vars = record { name = b'x' ∷ []; global_ref = ref 0 } ∷ [];
}

sets_x : globals_set 1 (b'x' ∷ []) (ref 0) one_value ≡ answer (tt, with_x)
unfolding globals_set find_global put_global take_reference incref deref is_pool_address strcmp
sets_x = refl

names_differ : ◌≢◌ {A = List ℕ} (b'y' ∷ []) (b'x' ∷ [])
names_differ e = absurd (omega (arith, ap (λ l. get_or l 0 0) e))

globals_set-find_global_example :
    (find_global (b'x' ∷ []) with_x.global_vars ≡ some (ref 0))
    × (find_global (b'y' ∷ []) with_x.global_vars ≡ find_global (b'y' ∷ []) [])
globals_set-find_global_example =
    globals_set-find_global 1 (b'x' ∷ []) (b'y' ∷ []) (ref 0) one_value (tt, with_x) sets_x
      names_differ

remove_global-find_global_example :
    (find_global (b'x' ∷ []) (remove_global (b'x' ∷ []) with_x.global_vars) ≡ none)
    × (find_global (b'y' ∷ []) (remove_global (b'x' ∷ []) with_x.global_vars)
        ≡ find_global (b'y' ∷ []) with_x.global_vars)
remove_global-find_global_example =
    remove_global-find_global (b'x' ∷ []) (b'y' ∷ []) with_x.global_vars (tt, tt) names_differ
