-- ===== src/Lib.antt =====
-- The kernel Cantos: a verification library for the parts of it that have logic of their own.
--
-- The program. Cantos is a kernel for 32-bit x86. src/mem/kmem.cpp is the kernel heap: a list of
-- free blocks in address order, which kmalloc cuts and kfree merges. src/mem/page.cpp hands out
-- physical pages, out of a list of free pages and else out of the memory map, and maps them into
-- the kernel's address space. The two call one another: the heap grows by pages, and the record
-- of a page is allocated on the heap. src/structures/stream.cpp formats text for every output,
-- and src/main/vga.cpp puts it on the screen. src/structures/utf8.cpp and
-- include/structures/static_list.hpp are the kernel's strings and its buffer between interrupt
-- handlers and threads. src/mem/vm.cpp keeps the page tables of a process, and src/mem/object.cpp
-- makes pages when they are asked for and enters them into the tables. src/task/task.cpp
-- runs the threads on the processors. src/hw/pci/pci.cpp finds the devices of the PCI buses, and
-- src/hw/ps2.cpp those at the ports of the PS/2 controller; src/hw/ps2keyboard.cpp is the driver of
-- one of these. src/int/idt.cpp and src/int/ioapic.cpp bring an interrupt to its driver,
-- src/int/lapic.cpp the timer's to the threads, and src/int/exceptions.cpp a page fault to the map
-- that resolves it. src/fs/filesystem.cpp reads paths and
-- finds what they lead to. src/hw/loacpi.cpp finds the processors, the
-- interrupt controllers and their overrides in the tables of the firmware.
--
-- The files.
--   Prelude.antt        shared names, Boolean tests, 32-bit words, lists over the native numbers.
--   Mem/State.antt      the static variables of kmem.cpp and page.cpp as one state, and commands.
--   Mem/PageAlloc.antt  page::alloc_nokmalloc, alloc, used and kinstall_append of src/mem/page.cpp.
--   Mem/Kmem.antt       kmalloc, kfree and their helpers of src/mem/kmem.cpp.
--   Mem/Page.antt       the other operations of src/mem/page.cpp.
--   Mem/Frames.antt     which physical addresses a chain of pages covers.
--   Mem/Vm.antt         the page tables of src/mem/vm.cpp.
--   Mem/Object.antt     src/mem/object.cpp, and the operations of src/mem/vm.cpp on objects.
--   Structures/Format.antt  Stream::writef of src/structures/stream.cpp.
--   Structures/Format/Strings.antt  Utf8::format of src/structures/utf8.cpp.
--   Structures/Utf8.antt    the other operations of src/structures/utf8.cpp.
--   Structures/StaticList.antt  include/structures/static_list.hpp and static_list.tpp.
--   Structures/SharedPtr.antt   include/structures/shared_ptr.hpp and shared_ptr.tpp; the destructor of
--                       what they point to is an argument. Structures/SharedPtr/Plain.antt is the case
--                       where it leaves the pointers as they are.
--   Structures/Vector.antt  include/structures/vector.hpp.
--   Structures/LinkedList.antt  include/structures/list.hpp and list.tpp.
--   Structures/Elf.antt     the lookups of src/structures/elf.cpp.
--   Main/Vga.antt       the text terminal of src/main/vga.cpp.
--   Task/Scheduler.antt the queue of src/task/task.cpp on several processors.
--   Fs.antt             parse_path of src/fs/filesystem.cpp; Fs/Populate.antt is its populate.
--   Hw/Pci.antt         the configuration reads and the search of src/hw/pci/pci.cpp.
--   Interrupts/Idt.antt     src/int/idt.cpp; Interrupts/Ioapic.antt and Interrupts/Pic.antt are
--                       src/int/ioapic.cpp and src/int/pic.cpp.
--   Interrupts/Lapic.antt   the timer of src/int/lapic.cpp, and Interrupts/Commands.antt its commands
--                       between processors.
--   Interrupts/Exceptions.antt  the page faults of src/int/exceptions.cpp.
--   Mem/Gdt.antt        the descriptors of src/mem/gdt.cpp.
--   Hw/Acpi.antt        low_setup of src/hw/loacpi.cpp.
--   Hw/Ps2.antt         the protocol of src/hw/ps2.cpp (its numbers in Hw/Ps2/Numbers.antt, its init in
--                       Hw/Ps2/Controller.antt).
--   Hw/Keyboard.antt    handle and send of src/hw/ps2keyboard.cpp.
-- The modules below each of these hold its proofs; those called Tests hold runs and examples.
--
-- How state is modelled. The static variables are the fields of a record, and a function that
-- changes them is a command: it maps a state to a run, which ends with a value and a new state, in
-- panic(), in a deadlock (waiting for a mutex that the caller itself holds), or in undefined
-- behaviour. A linked list is a list of its structures with their addresses; the memory at the
-- addresses of headers is a function. A number of 32 bits keeps its wrap-around.
--
-- Fuel. kmalloc and page::alloc call one another with no bound that the code states, so they take
-- fuel; running out is a result of its own, equal to none of the others. The theorems that a
-- command returns are proved for the fuel that they name: one more than nothing for a kmalloc that
-- finds a block, and one unit for each record for page::alloc.
--
-- What is not modelled: the initialisation of heap and pages from linker symbols and from the boot
-- page table, assembly, port input and output, and the printing of debug builds, which the
-- configuration of include/config.hpp leaves out.
pub mod Fs
pub mod Hw
pub mod Interrupts
pub mod Main
pub mod Mem
pub mod Prelude
pub mod Structures
pub mod Task
