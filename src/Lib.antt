-- ===== src/Lib.antt =====
-- mslang: an interpreter for a small dynamic language. A source text is lexed, parsed and compiled to
-- protos, the code of one function each, which a stack machine runs over heap objects.
--
-- This library models the parts below as functions, and proves what makes them correct. Paths are
-- those of the repository.
--
--   Memory           src/core/ms_memory.c: `alloc`, `realloc`, `free` with their counters and the
--                    injected failures. A block is its size; the host's answers are a list.
--   Opcode           src/vm/ms_opcode.h and .c: the opcodes, and the two formats of an instruction.
--   Floats           the arithmetic of `double`, a parameter: its operations, and as the record
--                    `IsIeee` the facts of IEEE 754 that the proofs use.
--   Object           src/object/ms_object.c and ms_string.c: references, objects and their store;
--                    `value_equals`, `object_hash`, `is_truthy`; and in Object.Compare the ordering
--                    of src/object/ms_operator.c.
--   Arith            src/vm/ms_vm.c: the 64-bit integer arithmetic of `msVmBinaryOp`.
--   Operator         src/object/ms_operator.c: the operators on any two values; Operator.Fast has
--                    the fast paths of src/vm/ms_vm.c in front of them.
--   Scope            src/compiler/ms_scope.c: the locals and blocks of the function being compiled.
--   Proto            src/vm/ms_proto.c: the builder of protos: emission, the table of lines, jumps
--                    to patch, and the pool of constants (Proto.Consts).
--   State            src/vm/ms_state.c: the table of globals.
--   Container        src/object/ms_list.c and ms_dict.c: lists and dicts, as storage that grows.
--   Vm               src/vm/ms_vm.c and ms_vm.h: the stack and the frames of a coroutine: growth, and
--                    what a call checks and writes; Vm.Exec and Vm.Items are the instructions, Vm.Run
--                    the loop of `msVmRun` and the call of a proto.
--   Diag             src/core/ms_diag.c: the list of diagnostics of a file, at most 20.
--   Lexer            src/lexer/ms_lexer.c and ms_lexer.h: from bytes to tokens. The cursor (Lexer.Cursor)
--                    holds the bytes that are left; Lexer.Scan is one token, Lexer.Stream all of
--                    them, Lexer.Unescape the decoder of literals. Lexer.Meaning describes apart
--                    from the code what a literal stands for, and Lexer.Position where a byte is.
--   Examples         runs on concrete inputs.
--
-- How they interact: the builder takes its instruction words from Opcode, its memory from Memory,
-- and compares constants by the equality of Object. The scopes use Memory for the names marked global.
-- The fast paths of Operator try Arith and fall back to the general operators. The loop of Vm.Run
-- works on objects, globals and errors through the interface of Vm.Host. A failed call is a value:
-- `none`, an `MsResult`, or a `Fault`.
--
-- Numbers: `size_t` and `uint64_t` keep their wrap-around (`wrap`, `to_uint64`); an `int64_t` is an
-- integer whose range is a hypothesis (`IsInt64`). Counts and pcs are natural numbers, and so are the
-- lexer's lines and columns (`uint32_t`) and depths (`int`), which wrap only for a source of 2^31 bytes
-- or more.
--
-- Fuel: every loop of the lexer has as many rounds as bytes are left and one, and each round takes a
-- byte; `none` would say that they do not suffice, and every theorem on the lexer has that they do.
-- `value_equals` takes rounds for the depth of nested lists, since the recursion of the source has
-- no bound on a list that holds itself; the depth is enough elsewhere. The search in the table of
-- lines takes as many rounds as the table has entries, which is enough. The loop of `**` takes 65
-- rounds, one for each binary digit of a 64-bit exponent and one to stop. The loop that doubles the
-- stack or the frames takes 22 rounds, since 21 double any capacity past 2^20. The loop over the
-- instructions takes any number of rounds, as a program may run forever.
--
-- Not modelled: the parser, the compiler, what an instruction does to objects and globals (an
-- interface in Vm.Host, whose operators are those of Operator), the table of interned strings, the
-- list of all objects and its release, the built-in functions, the dump of protos, and the command
-- line. Formatted messages are named, not spelled out, but those of the virtual machine.
pub mod Base
pub mod Memory
pub mod Opcode
pub mod Floats
pub mod Object
pub mod Arith
pub mod Scope
pub mod Proto
pub mod Operator
pub mod State
pub mod Container
pub mod Vm
pub mod Diag
pub mod Lexer
pub mod Examples
