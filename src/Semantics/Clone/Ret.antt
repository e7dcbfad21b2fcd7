-- ===== src/Semantics/Clone/Ret.antt =====
-- A return statement whose expression is a symbol.
use casterisk.Prelude.{◌<◌, arith, ℕ, suc, ◌≡◌, refl, none, some, Text}
use casterisk.Semantics.Graph.{
  update, Ptr, Object, symbol, ret_expr, World, ◌>>=◌, ◌>>◌, pure, deref, alloc, load, store,
}
use casterisk.Semantics.Clone.{
  SymbolTable, clone_ret, clone_symbol, rhs_clone, clone_step, deep_clone,
}

still :
    {o : Object} (w : World) (a : Ptr) (n : Object)
    → w.cell a ≡ some o
    → a < w.next
    → update w.cell w.next n a ≡ some o
still w a n e h = ground arith

-- A clone of `ret a`, of a parameter `a`, is the same whatever the table has for `a`: where an operand
-- of a call would be looked up, a new symbol is made.
pub deep_clone_ret-table :
    (fuel : ℕ) (r a : Ptr) (name : Text) (w : World) (st st' : SymbolTable)
    → w.cell r ≡ some (ret_expr (some a))
    → w.cell a ≡ some (symbol name none)
    → a < w.next
    → deep_clone (suc (suc fuel)) r st w ≡ deep_clone (suc (suc fuel)) r st' w
unfolding deep_clone ◌>>=◌ ◌>>◌ load clone_step clone_ret alloc deref pure store clone_symbol
    rhs_clone
deep_clone_ret-table fuel r a name w st st' e f h =
    rw (deep_clone, ◌>>=◌, load, e, still w a (ret_expr none) f h) refl
