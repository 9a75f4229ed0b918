-- ===== src/Lib.antt =====
-- The coursework of CS 24 that has program logic of its own: a TeenyBASIC compiler
-- (project03-kweng), a Java virtual machine for integers (project01-kweng), the memory of a
-- Python interpreter (project05-kweng), a heap allocator (project04-kweng), and the buffers and
-- the queue of a caching proxy (project07-kweng). The programs share no code.
--
-- Prelude passes on the library's names and has the lists and tests over native numbers; Word
-- has the two's complement words of 32 and 64 bits, kept as bit patterns: add_w, sub_w, mul_w,
-- sdiv, srem and slt are C's + - * / % <, where an overflow wraps and a division that traps is
-- none.
--
-- Basic: project03-kweng. Basic.Ast has the nodes of project03-kweng/include/ast.h and the
-- constructors of project03-kweng/src/ast.c, where NULL is none. Basic.Parser is
-- project03-kweng/src/parser.c over the bytes of a file and a position in it, with strtol a
-- parameter and fuel for the rounds of the loops and the depth of the recursion: no fuel is
-- enough for some files (Basic.Parser.Hang). Basic.Compile is compile_ast of
-- project03-kweng/src/compile.c: it returns the lines that the C code prints, one Instr each,
-- the counter label_no and the result; compile_program is the loop of main in
-- project03-kweng/src/compiler.c. Basic.Machine runs such lines on four registers, the frame and
-- the stack; print_int, which calls printf, appends to the output and leaves in the registers
-- what a parameter says. Basic.Semantics says what a program means, statement by statement.
-- Basic.Correct relates the two: Expr for expressions, Labels for the labels that compile_ast
-- makes up, Stmt for statements, Program for a program with its jumps. Not modelled: the text of
-- the instructions, the assembler's limits, and a stack overflow.
--
-- Jvm: project01-kweng. Jvm.ClassFile has the parsed class and the look-ups of
-- project01-kweng/read_class.c, Jvm.Reader its readers (RoundTrip, Methods and Class write the
-- class file format out as bytes), Jvm.Main the main of project01-kweng/jvm.c, Jvm.Opcode the
-- opcodes of project01-kweng/jvm.h, Jvm.Bytes the conversions of operands, Jvm.Frame the
-- variables of execute and their accesses, Jvm.Execute the switch of jvm.c (step for the cases
-- that stay in the method, print_top, invoke and round for the others) and the loop. An access
-- out of an array, a failed assert and a trap are a fault. The loop and the calls of execute run
-- on fuel, one unit for each round and each depth of calls. What malloc leaves in new locals is
-- a parameter.
--
-- Subpython: project05-kweng. Subpython.Pool is project05-kweng/mm.c: the free list is the list
-- of its blocks in link order, each an address and a value_size. BestFit is about the search,
-- Bytes about one call, Reach about any sequence of calls after mm_init. The bytes of a value,
-- which mm_free overwrites, are not modelled; the tag VAL_FREE is membership in the list; a
-- request is for 24 bytes, a header, or more. Subpython.Refs is project05-kweng/refs.c up to
-- decref: the table is the list of its entries, where NULL is none, and the recursion of decref
-- runs on fuel, one unit for each level of values. Entries and Table are about make_ref and the
-- release of a value, Counts about decref, Inverse about get_ref. Subpython.Run has the state of
-- the interpreter, with the exception and the global variables, and runs over it.
-- Subpython.Values is project05-kweng/eval_refs.c and the functions of
-- project05-kweng/eval_types.c for scalars, Lists and Dicts are project05-kweng/eval_list.c and
-- project05-kweng/eval_dict.c, Types the dispatch of project05-kweng/eval_types.c, Eval,
-- Eval.Expressions and Eval.Statements project05-kweng/eval.c. A call back to ref_eq, compare or
-- eval_expr is a parameter of the function, and the recursion runs on fuel, one unit for each
-- level of values or of the tree and each round of a loop. Values.Order, Lists.Subscripts,
-- Lists.Runs, Dicts.Probes and Eval.Globals have the theorems. Subpython.Collect is the
-- collector of project05-kweng/refs.c, with one unit of fuel for each entry of the table:
-- Measure counts the entries still to be copied, Copies and Moves are about one copy, Correct
-- about what a collection reaches, Room, Ready and Complete about the space that it needs. Not
-- modelled: printing, and the functions exit, mem, gc and print, which are a parameter.
--
-- Heap: project04-kweng/mm.c over project04-kweng/memlib.c, a heap of 8-byte words by their
-- addresses. Heap has malloc, coalesce, split and free, Heap.Realloc realloc, calloc and
-- mm_checkheap, which Realloc.Check is about. The loops run on fuel, one unit for each block and
-- one more. Heap.Tiles has the heap as the list of its blocks (IsHeap), Marks the tags, Malloc
-- and Malloc.Place the search and malloc, Coalesce and Coalesce.Merge the neighbours and their
-- joining, Tags and Free the node that free writes into a payload. Not modelled: errno, and a
-- heap that mmap cannot give.
--
-- Proxy: project07-kweng. Proxy.Buffer is project07-kweng/src/buffer.c, with the memory as the
-- list of its bytes and realloc a parameter; a failed assert on NULL is not modelled.
-- Proxy.Queue is the queue of project07-kweng/src/cache.c, with the prev and next of each node
-- as functions of its address; Links and Update relate it to the list of its nodes. Proxy.Cache
-- is the rest of that file, the hash table and the cache, with the strings and the lengths of
-- buffers as parameters: Chains is about the chains of the table, Limits about the sizes. The
-- loops run on fuel, one unit for each node of a chain and each eviction. Proxy.Request is the
-- part of project07-kweng/src/client_thread.c that reads a request and sends it on, with the
-- bytes still to come and what each write takes as parameters; filter_rest_headers has one unit
-- of fuel for each byte of the stream. Lines is about read_full_line, Parts about
-- make_get_header, Headers and Forwarded about filter_rest_headers. Not modelled: the locks,
-- sockets and threads.
pub mod Prelude
pub mod Word
pub mod Basic
pub mod Heap
pub mod Jvm
pub mod Subpython
pub mod Proxy
