-- ===== src/Subpython/Run.antt =====
-- The state of the interpreter of project05-kweng, exception.c, and the calls of refs.c as the other
-- files make them. A run is a function of the state; the text of an exception is left out.
use cs_24_coursework.Prelude.{ℕ, Bool, true, false, Option, none, some, List}
use cs_24_coursework.Prelude.Answer.{Answer, answer, fault, no_fuel}
use cs_24_coursework.Subpython.Pool.{Block}
use cs_24_coursework.Subpython.Refs.{
  Reference, ref, null_ref, tombstone_ref, Kind, Refs, write_value, make_ref, deref, incref,
  Outcome, done, assert_failed, out_of_fuel, decref,
}

-- exception_t without EXC_NONE.
pub data Exception : Type 0 where
  exc_syntax_error exc_name_error exc_type_error exc_value_error : Exception
  exc_index_error exc_key_error exc_memory_error exc_internal : Exception

pub record Global : Type 0 where
  pub name : List ℕ
  pub global_ref : Reference

-- NONE_REF, TRUE_REF and FALSE_REF, the exception, `none` for EXC_NONE, and the global variables, of
-- which there are num_vars.
pub record Interp : Type 0 where
  pub refs : Refs
  pub none_ref : Reference
  pub true_ref : Reference
  pub false_ref : Reference
  pub exception : Option Exception
  pub global_vars : List Global

abbrev pub Run : Type 0 → Type 0
Run A = Interp → Answer (A × Interp)

abbrev pub pure : {A : Type 0} → A → Run A
pure a s = answer (a, s)

abbrev pub continue : {A B : Type 0} → Answer (A × Interp) → (A → Run B) → Answer (B × Interp)
continue (answer (a, s)) f = f a s
continue fault f = fault
continue no_fuel f = no_fuel

infixl 5 ◌>>=◌ ◌>>◌
abbrev pub ◌>>=◌ : {A B : Type 0} → Run A → (A → Run B) → Run B
(m >>= f) s = continue (m s) f

abbrev pub ◌>>◌ : {A B : Type 0} → Run A → Run B → Run B
(m >> n) s = continue (m s) (λ a. n)

abbrev pub fail : {A : Type 0} → Run A
fail s = fault

unfoldable pub exception_set : Exception → Run (Unit {0})
exception_set e s = answer (tt, record s { exception = some e })

unfoldable pub exception_clear : Run (Unit {0})
exception_clear s = answer (tt, record s { exception = none })

abbrev pub is_set : Option Exception → Bool
is_set none = false
is_set (some e) = true

unfoldable pub exception_occurred : Run Bool
exception_occurred s = answer (is_set s.exception, s)

abbrev pub at_block : {A : Type 0} → Option Block → (Block → Answer A) → Answer A
at_block none f = fault
at_block (some b) f = f b

-- The address of the value that deref gives.
unfoldable pub address_of : Reference → Run ℕ
address_of (ref r) s = at_block (deref r s.refs) (λ v. answer (v.addr, s))
address_of null_ref s = fault
address_of tombstone_ref s = fault

abbrev pub kind_at : ℕ → Interp → Kind
kind_at addr s = (s.refs.values addr).kind

-- What stands at the value of a reference.
unfoldable pub kind_of : Reference → Run Kind
unfolding address_of
kind_of r = do addr ← address_of r; λ s. answer (kind_at addr s, s)

unfoldable pub set_kind : ℕ → Kind → Run (Unit {0})
set_kind addr kind s = answer (
  tt,
  record s {
    refs =
        write_value addr (record { kind = kind; ref_count = (s.refs.values addr).ref_count })
          s.refs;
  },
)

abbrev pub made : Option (ℕ × Refs) → Interp → Answer (Reference × Interp)
made none s = answer (null_ref, record s { exception = some exc_memory_error })
made (some (r, refs)) s = answer (ref r, record s { refs = refs })

-- make_ref, and what the caller writes behind the new value_t.
unfoldable pub make_reference : Kind → ℕ → Run Reference
make_reference kind size s = made (make_ref kind size s.refs) s

abbrev pub counted : Option Refs → Interp → Answer (Unit {0} × Interp)
counted none s = fault
counted (some refs) s = answer (tt, record s { refs = refs })

unfoldable pub take_reference : Reference → Run (Unit {0})
take_reference (ref r) s = counted (incref r s.refs) s
take_reference null_ref s = fault
take_reference tombstone_ref s = fault

abbrev pub dropped : Outcome → Interp → Answer (Unit {0} × Interp)
dropped (done refs) s = answer (tt, record s { refs = refs })
dropped assert_failed s = fault
dropped out_of_fuel s = no_fuel

-- decref, on fuel for its depth.
unfoldable pub give_back : ℕ → Reference → Run (Unit {0})
give_back fuel r s = dropped (decref fuel r s.refs) s
