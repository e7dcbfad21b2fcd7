-- ===== src/Lib.antt =====
-- CAsterisk, a compiler from a small functional language to LLVM: its parse trees, the graph of
-- expressions that it makes of them, type inference on this graph, the driver that translates it,
-- and the support code around them. All paths are below src/catk unless they begin with src/.
--
-- The parser (syntax) gives a tree whose nodes are tagged with the rule that matched. `Expr::from_ast`
-- (semantics) makes of it a graph of constants, symbols, calls and contexts, which stand in a store
-- that only grows; symbols are found by name in the context that is current. `get_type` (type) walks
-- this graph, keeps what it finds in maps, and clones a lambda for each list of types that it is
-- called with. The driver (behavior/gen_llvm) walks it again and asks an LLVM builder for
-- instructions, by the types that inference gives. Texts are printed through an indenting stream (io).
--
-- Files and sources:
-- - Outcome: utils.hpp, utils.cpp, error/rule_violation.hpp. An exception is a value, without its
--   message; `assert` is taken to be on, and a step without meaning in C++ is the fault `undefined`.
-- - Utils.Escape: utils.hpp, `escape`. Below it, a reader of escaped texts and one of quoted texts.
-- - Syntax.Dot: utils.hpp, `print_dot` of a parse tree, with the addresses and names of nodes as parameters.
-- - Io.FmtDevice and Io.Manipulators: io/fmt_stream.hpp and io/fmt_stream.cpp, `FmtDevice` with all its
--   operations and the manipulators; below FmtDevice, a description that goes byte by byte. The buffer
--   around the device belongs to boost.
-- - Syntax.Ast, Syntax.Parts and Syntax.Visit: syntax/ast.hpp, the functions of syntax/expr.hpp that pick
--   the parts of a node, and src/avalon/mpl/type_visit.hpp with `is_in` of syntax/utils.hpp.
-- - Syntax.Pegtl, Syntax.Grammar and Syntax.Keywords: the grammar of syntax/expr.hpp, a rule for each
--   structure. Matching belongs to PEGTL: it is a parameter, with what PEGTL documents of its rules as the
--   hypothesis. Semantics.PrimaryUnion.Tags has the rule for the tags of integer literals.
-- - Semantics.PrimaryType, Semantics.Op, Semantics.PrimaryUnion: semantics/utils.hpp, semantics/op.hpp,
--   semantics/op.cpp, and `interpret` of the literals in syntax/expr.hpp. The conversions from texts to
--   numbers of boost and the C++ library are the parameter `Numerals`.
-- - Semantics.Graph: memory/vector_based.hpp, semantics/memory.hpp, semantics/utils.cpp and the
--   members of the classes derived from `Expr`. An address is the number of objects that were
--   allocated before; a run returns, throws or runs out of fuel. Graph.Framed and Graph.Ended carry
--   the proofs about what a run leaves alone and that it ends; Graph.Valid says when a store is well
--   formed, and its children how the parts of a run keep it so.
-- - Semantics.FromAst: `from_ast` of semantics/symbol.cpp, constant.cpp, ret_expr.cpp,
--   functional_expr.cpp, context.cpp, module.cpp and expr.cpp, and semantics/function.hpp. Each is
--   written over `rec`, the call of `Expr::from_ast` on a part; Expr ties the knot on fuel, a unit for
--   each level of the tree, so that the depth of the tree is enough.
--   Valid and ValidCalls are about the store that a run leaves.
-- - Semantics.Clone: `dependencies`, `clone` and `deep_clone` of the same classes. A unit of fuel is
--   for each level of the graph.
-- - Semantics.Printer and Semantics.Dump: `dump`, `dump_deps` and `dump_str` of the same classes. The text
--   of a number with a fraction is a parameter; a unit of fuel is for each call that is under way. Dump.Level
--   is about the device, Dump.Literals about constants that were read from literals, Dump.Ranked says when
--   expressions are not circular, and Dump.Fuel and Dump.Ended are about the fuel.
-- - Typing.OpCast, Typing.Types, Typing.Types.Intern: type/op_cast.hpp, type/type.hpp and
--   type/context.hpp. The text of an address is a parameter.
-- - Typing.Typer, Typing.Operators, Typing.Operands, Typing.Infer: type.cpp. `Typer` has the store of
--   expressions, the table of types, `expr_type` and `def_to_inst`. A unit of fuel is for each call of
--   `get_type` under way, and a second number bounds the depth of clones. Typing.Safe carries the
--   proofs about what inference keeps. `bin_op_type` of Typing.Described describes the types of binary
--   operators by their spelling, and Typing.Branches those of an if-else by an order on types.
-- - GenLlvm: behavior/gen_llvm. BinOps has the table of instructions, Legalize the casts and UnaryOps the
--   other operators and constants of value.cpp; the builder and the types of LLVM are the parameter
--   `Llvm`, with what LLVM says of its floating-point types in `HasFloats`.
-- - GenLlvm.Session, CTypes, Types, Contexts and Values: driver.hpp, utils.hpp, type.cpp, context.cpp,
--   driver.cpp, value.cpp and module.cpp: the maps of the driver, the types of LLVM, the structures and
--   functions of contexts, and `translate_value` with each kind of expression. `DriverBuilder` has the
--   calls of LLVM that these make, and the type inference that they ask is the model of Typing. A unit
--   of fuel is for each call of `translate_type` or `translate_value` under way. Steady and Restores
--   carry the proofs about what a run keeps, Again those about asking twice, Minus those about the sign of
--   a number.
-- - Tests: the theorems at concrete inputs, and runs of whole programs: trees to graphs (Trees, Graphs),
--   types (Typed, Inferred), code (Driven), texts (Texts, Dumped, Drawn) and the grammar (Parsed).
--
-- Where no theorem says that fuel is enough (`clone`, `get_type`, the driver), the theorems are
-- about the runs that return, and the tests show runs that do.
--
-- Not modelled: how PEGTL matches a rule and the errors that it prints; `Expr::function`, `opnds` and
-- `opnd_labels`, which assert a rule that the tree never keeps; the lists of types and `debug_id` of
-- src/avalon/mpl and the visitors with virtual functions, which the compiler resolves, so that the
-- chain of tests that they stand for is written out; the wrappers of a module in behavior.cpp,
-- unit.hpp and memory.hpp of behavior, and the class of scontext.hpp that nothing uses; src/catkc.cpp,
-- which reads files and calls the parts.
pub mod Prelude
pub mod Outcome
pub mod Table
pub mod Utils
pub mod Io
pub mod Syntax
pub mod Semantics
pub mod Typing
pub mod GenLlvm
pub mod Tests
