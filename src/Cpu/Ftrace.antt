-- ===== src/Cpu/Ftrace.antt =====
-- The call trace of src/monitor/elftl.c: `findFunc` over the symbol table and `add_ftrace`. The
-- linked list with its tail pointer is a list in order of insertion; a symbol's name is its index.
pub mod Nesting
pub mod Tests
use sustemu.Base.{
  ℕ, ◌+◌, Bool, List, [], ◌∷◌, ◌++◌, Option, none, some, ltb, leb, if◌then◌else◌, ◌&&◌,
}
use sustemu.Base.Int.{ℤ, sub_ℕ, pos_part, neg_part}
use sustemu.Word.{add64}

-- `Elf64_Sym`, the fields that the lookup reads
pub record Sym : Type 0 where
  pub st_name : ℕ
  pub st_value : ℕ
  pub st_size : ℕ

-- `ftrace_element`; `depth` is an `int`, which a return below the start makes negative; it is taken
-- not to overflow.
pub record FtraceElement : Type 0 where
  pub func_name : Option ℕ
  pub addr : ℕ
  pub is_call : Bool
  pub depth : ℤ

pub record Ftrace : Type 0 where
  pub enabled : Bool
  pub symtab : List Sym
  pub depth : ℤ
  pub elements : List FtraceElement

unfoldable pub find_func : List Sym → ℕ → Option ℕ
find_func [] addr = none
find_func (s ∷ ss) addr =
    let rest = find_func ss addr in
    if leb s.st_value addr && ltb addr (add64 s.st_value s.st_size) then some s.st_name else rest

abbrev pub succ_ℤ : ℤ → ℤ
succ_ℤ z = sub_ℕ (pos_part z + 1) (neg_part z)

abbrev pub pred_ℤ : ℤ → ℤ
pred_ℤ z = sub_ℕ (pos_part z) (neg_part z + 1)

unfoldable pub add_ftrace : Ftrace → ℕ → Bool → Ftrace
add_ftrace t addr is_call =
    if t.enabled
    then (let shown = if is_call then t.depth else pred_ℤ t.depth in
        let next = if is_call then succ_ℤ t.depth else pred_ℤ t.depth in
        record t { depth = next; elements = t.elements ++ (element shown ∷ []) })
    else t
  where
    element : ℤ → FtraceElement
    element d = record {
      func_name = find_func t.symtab addr;
      addr = addr;
      is_call = is_call;
      depth = d;
    }
