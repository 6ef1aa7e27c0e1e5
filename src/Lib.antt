-- ===== src/Lib.antt =====
-- A model of min-rust-os, a small x86-64 kernel in Rust (min-rust-os/src).
--
-- Parts and files:
-- - Prelude: shared names; `Result` for code that may panic (Prelude/Fallible), 64-bit arithmetic
--   with the overflow checks of the development profile (Prelude/Words), bit masks as arithmetic.
-- - Allocator: min-rust-os/src/allocator.rs, `align_up` and the dummy allocator; Allocator/Bump is
--   allocator/bump.rs, Allocator/LinkedList is allocator/linked_list.rs and
--   Allocator/FixedSizeBlock is allocator/fixed_size_block.rs. Allocator/Client says what a client
--   of any of them may do, and FixedSizeBlock/Contract what the last one relies on its fallback
--   for. Allocator/Heap is `init_heap`; Allocator/Heap/Boot joins it to the frames of the memory
--   map.
-- - Vga: min-rust-os/src/vga_buffer.rs, the writer to the text screen; Vga/Terminal is the abstract
--   terminal that it stands for, and Vga/Something is `print_something`.
-- - Memory: min-rust-os/src/memory.rs, the frame allocators, the example mapping and, in
--   Memory/Translate, the translation of addresses; Memory/Paging holds the interfaces of frame
--   allocators and mappers.
-- - Task: min-rust-os/src/task/mod.rs, tasks and their ids; Task/Simple is task/simple_executor.rs
--   and Task/Executor is task/executor.rs. Task/Keyboard is task/keyboard.rs, the scancodes between
--   the keyboard interrupt and the task that polls; Task/Keyboard/Keypresses is that task,
--   `print_keypresses`, which prints with Vga.
-- - Interrupts: min-rust-os/src/interrupts.rs, the table of handlers and the handlers, which print
--   with Vga and hand scancodes to Task/Keyboard; Interrupts/Delivery says how the controllers and
--   the processor come to a handler.
-- - Kernel: `init` of min-rust-os/src/lib.rs and min-rust-os/src/gdt.rs, the stack of the double
--   fault; Kernel/TestRunner is the test runner of lib.rs, with the output of
--   min-rust-os/src/serial.rs. Of min-rust-os/src/main.rs, Kernel/Greeting is what `kernel_main`
--   prints first and what `example_task` prints, Kernel/Main the set-up of the heap, Kernel/Spawned
--   the tasks and the run of the executor, and Kernel/Hello `write_to_vga_unsafe`.
--
-- A `*mut u8` is its address, and null is 0. A method that changes its object takes the state and
-- returns the new one; behind a lock it has the state to itself. A loop is a recursion on the
-- rounds that are left. The executors take a bound, `fuel`, on their rounds: a round handles one
-- entry of the queue, so as many rounds as there are entries, now and to come, are enough. The
-- endless loop of the executor goes on for as many rounds as interrupts are given for, or until a
-- halt that no interrupt ends. Text is its
-- UTF-8 bytes.
--
-- The crates `volatile`, `x86_64`, `bootloader`, `linked_list_allocator`, `crossbeam_queue`,
-- `futures_util`, `pc_keyboard`, `pic8259` and `uart_16550` and the futures that the compiler makes
-- are not part of the repository. What the code uses of them is a parameter, a record of operations
-- with the laws that the code relies on: `Vga.Volatile`, `Memory.Frames`, `Paging.Pages`,
-- `Paging.FrameAllocator`, `Paging.Mapper`, `Translate.PageTables`, `FixedSizeBlock.Fallback`,
-- `Task.ArrayQueue`, `Task.Futures`, `Task.Keyboard.AtomicWaker`, `Keypresses.PcKeyboard`,
-- `Interrupts.DescriptorTable`, `Interrupts.ChainedPics`, `Kernel.Segments` and
-- `TestRunner.SerialPort`.
--
-- Not modelled: the part of `kernel_main` that shows what boxes, vectors and counted references do,
-- which is the crate `alloc`; the integration tests; and that main.rs has a `WRITER` of its own
-- beside that of the library, on the same buffer: each writer is taken to be alone on its screen.
mod Prelude
pub mod Allocator
pub mod Interrupts
pub mod Kernel
pub mod Vga
pub mod Memory
pub mod Task
