-- ===== src/Lib.antt =====
-- The verification library of Doors, a 32-bit x86 operating system written in C++.
--
-- The library follows the program. Base holds what all modules share: Boolean tests, lists with
-- native indices, words of 32 bits with their wrap-around, stores, and singly linked lists in a
-- store of links. Each component is a module that holds its state and its operations as the code
-- composes them; its child modules hold the proofs, named for what they prove, and a child Tests
-- the runs and the theorems at concrete inputs.
--
-- Pmm is kernel/kernel/Pmm.cc with kernel/include/kernel/Pmm.h, the physical memory manager. The
-- record Pmm is its static state. The free list is kept by the links inside the free frames, as in
-- the code: link a is the first word of the frame at a, link 0 the variable freeList_, so a
-- pointer to a link is a number and unlinking is a write to the store. Pmm itself has the
-- operations on single frames (push_frame, free_frame_fast, alloc_frame, free_frame, add_ref,
-- remove_ref, ref_count), Pmm.Walks those that walk the list (reserveFrame, removeFramesAbove,
-- reserveRegion), Pmm.Boot the construction at boot (cacheModuleInfo, collectModuleRanges,
-- addMemoryMapPages, init). The 32-bit counters wrap as in the code. A walk takes fuel and gives
-- none when it runs out; the theorems hold for every fuel above the length of the list, and the
-- page loop of boot has as much fuel as there are pages below 4 GiB. Not modelled are the words of
-- a frame other than its first, the printing, and the interrupt guard, which has no effect on the
-- state. The multiboot structures are parameters: lists of what the loops over them read.
--
-- Pit is kernel/arch/i386/Pit.cc, the one-shot timer and the wall clock. Scheduler is
-- kernel/kernel/Scheduler.cc with kernel/include/kernel/Scheduler.h and Task.h, as the host tests
-- compile it, without __IS_DOORS_KERNEL: page directories, the TSS, the FPU and the frames on the
-- kernel stacks are left out, and sleep ends where the task would wait. The record Scheduler is
-- the static state, with the task table and the sleep queue as functions of the index and the
-- timer that the code calls. Scheduler has the state and the counts, Scheduler.Sleepers the sleep
-- queue with its shift loops and the wake-up, Scheduler.Pick findNext, Scheduler.Tick tick,
-- switchTo, programNextTick and sleep, Scheduler.Table the slots, PIDs and children (killTask is
-- of kernel/kernel/SchedulerProcess.cc), Scheduler.Signals kernel/kernel/SchedulerSignals.cc. The
-- answer of the heap to the request for a stack is an argument, and handlers called on exit are
-- taken to leave the scheduler alone. The wake-up loop has a round for each entry of the queue,
-- which is enough since each round removes one. A panic is an outcome. Semaphore is
-- kernel/kernel/Semaphore.cc as the kernel compiles it, over the scheduler, up to the loop that
-- halts until the task is woken.
--
-- Divide is libc++/stdlib/udivmoddi3.cc, the 64-bit division that the compiler calls on a 32-bit
-- machine: align is the loop that shifts the divisor up, with 64 rounds, which bring the top bit
-- of any divisor but 0 into place; subtract_all is the loop that subtracts it; udivmoddi4, udivdi3
-- and umoddi3 are the three functions, which give none where the machine traps. A null pointer for
-- the remainder means that the caller ignores it.
--
-- Heap is kernel/kernel/Heap.cc. The headers are stores of words, indexed by the address of the
-- header, and the free list is kept by links as in Pmm, with link 0 for freeList_, so that a null
-- prev is the place of the list head. Heap has the state, init and alloc (find_best is its search,
-- split_block and whole_block its two ways to take a block), Heap.Release has free with both
-- merges and the walks that measure the list. Heap.Valid states what the free list must satisfy. A
-- walk takes fuel and gives none when it runs out; one round more than there are free blocks is
-- enough for alloc, and two for free, which may add a block before it walks. The bytes of the
-- users are not modelled, nor is a write of theirs into a header.
--
-- RingBuffer is kernel/include/kernel/RingBuffer.h, with the item type a type and the number of
-- slots a number, both any.
--
-- Malloc is libc++/stdlib/malloc.cc, the allocator of user programs, with its free list kept as in
-- Heap. The address of the static pool and the alignment of max_align_t, which the compiler
-- chooses, are parameters. One round of fuel more than there are free blocks is enough.
--
-- Paging is kernel/arch/i386/Paging.cc: the page tables as words in a memory of frames, over the
-- state of Pmm, whose operations it calls. Flags holds the entries and their bits
-- (kernel/include/arch/i386/Paging.h), Directory the operations on whole tables (clearPageTable,
-- clonePageDir with its rollback, freePageDirectory) and Boot the init. CHECK_PHYS_ADDR is a
-- panic. physToVirt adds a constant and is left out, and so are the writes of CR0 and CR3, INVLPG
-- and the InterruptGuard: there is no cache of translations in the model. Mapped says what the
-- processor finds for an address, Frames what taking and giving up frames leaves; MapPage,
-- NewTable, Unmap, PageCopy, CowFault, Clone, CloneTable, CloneDir, CloneRounds and Mirror hold
-- the proofs. A frame that is freed gets the link to the next one in its first word, in the memory
-- too; the walks of the free list read the links that Pmm keeps, and a frame that is taken is
-- cleared. So the theorems ask that the tables they speak of lie in frames with references. init
-- takes fuel for Pmm's walk of the free list and ends with none if that runs out.
--
-- Snake is user/snake/Game.cc with user/snake/Game.h: the state with the snake in a ring of 100
-- cells, the collisions, the random placing, and the step as a chain of its parts; what is drawn
-- on the screen is left out. Rows, columns, the length and the score are numbers without a bound:
-- a row or column below 0 is as far off the board as 0, and the others would have to pass 2^31.
-- Placed, Ring, Rest and Board hold the invariant and what a step does, Bonus the time of a bonus.
--
-- Kbd is kernel/arch/i386/Kbd.cc with kernel/include/kernel/Kbd.h: the ring of characters, the
-- counters of navigation keys, the modifiers and the interrupt handler, for any tables of
-- scancodes and texts (kernel/include/kernel/Scancodes.h and kernel/kernel/Keymap.cc are
-- arguments) and without CAPS_LOCK_IS_CTRL. Line is readLine with its helpers, one round of its
-- loop at a time, so that interrupts come between rounds; Screen is the line of the terminal it
-- prints to, which is taken to be wide enough, and a newline to move to an empty row; backspace
-- and carriage return move its cursor. What a round makes the terminal scroll is left out, and
-- getChar and waitForChar are modelled behind their wait. Shows, Editing, Keys and Fifo hold the
-- proofs.
--
-- Numbers is libc++/stdlib: utos.cc, ltos.cc and itos.cc print a number, strtoull.cc, strtoll.cc,
-- strtol.cc, strtoul.cc, atoi.cc and atol.cc read one, with the tests on characters of
-- libc++/include/ctype.h. A string is the list of its characters. The loop that divides runs on
-- fuel; a number below 2 ^ fuel needs no more, as the base is at least 2, so that 32 or 64 rounds
-- are enough for a number of that width. The buffers are taken to be long enough. Digits and
-- RoundTrip hold the proofs.
--
-- Bytes is libc++/string, all files but string.cc, with strlen of libc++/include/string.h: loops
-- over a memory of bytes, where an address is a number that does not wrap around and a pointer
-- that may be nullptr is an option. A loop that ends at a NUL runs on fuel; one more than the
-- length of the string is enough. Moves, Strings and Search hold the proofs.
pub mod Base
pub mod Bytes
pub mod Divide
pub mod Heap
pub mod Kbd
pub mod Malloc
pub mod Numbers
pub mod Paging
pub mod Pit
pub mod Pmm
pub mod RingBuffer
pub mod Scheduler
pub mod Semaphore
pub mod Snake
