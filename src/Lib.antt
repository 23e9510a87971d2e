-- ===== src/Lib.antt =====
-- A model of the mayv kernel: its physical memory allocator, its address space lists, its page tables,
-- its heap, its event queue, its file system layer, its Unicode conversions, its keyboard, its text
-- screen and its C memory and string functions, with the theorems that make them correct.
--
-- The parts of the program. The kernel (src/boot/kernel.cpp) starts the physical memory allocator from
-- the firmware's memory map, then the virtual memory manager, which marks and requests physical pages,
-- and the heap above both; the drivers and file systems stand on these. File names of file systems go
-- through the Unicode functions, and every part uses the C library functions.
--
-- Prelude: the names and the lemmas that the parts share: Boolean tests (Prelude/Tests), lists
-- (Prelude/Lists), bits of numbers (Prelude/Bits), memory as a function of addresses (Prelude/Memory)
-- and 64-bit arithmetic with its wrap-around (Prelude/Words).
--
-- Physical: src/boot/phymemmgmt.cpp. The static variables of the file are the record PhysicalMemory of
-- Physical/Pages: the number of pages, the number of available ones and the bitmaps of all orders as one
-- function of bit numbers, since they lie one behind another in memory. buddyBitmapSizes, buddyBitmaps,
-- buddyMasks and buddySizes are functions of the number of pages. Physical/Marking is markPages,
-- Physical/Request is requestPages and Physical/Initialize is initialize; the printing is left out. The
-- loop over a range of pages counts them down; the while loop over the buddies of a range takes the
-- number of pages as fuel, and a buddy is at least a page, so it is enough. The invariant is in
-- Physical/Invariant, and the other files prove the operations against it.
--
-- Virtual: src/boot/virtualmemmgmt.cpp, the lists of address space blocks. One AddressSpace of
-- Virtual/Space stands for generalAddressSpaceList or kernelAddressSpaceList with its count of available
-- pages, and defrag there is defragAddressSpaceList. request_space of Virtual/Requesting is requestPages
-- with the loop that maps physical pages, and free_pages of Virtual/Freeing is freePages with the
-- unmapping; both call the functions of Paging. The loops that erase and insert while they count are
-- recursions on the list. The loop that maps takes the count of pages and two as fuel: a round
-- maps a page at least, and the round after one that mapped too many asks for more pages than there are
-- and panics (Virtual/Rounds). A panic, and the exception of list.at, is the result none.
-- freePages writes through a reference after it inserted into the vector; the model takes the reference
-- to stand for the same block. Which of the two lists the flag RequestType::Kernel chooses is an argument
-- of its own.
--
-- Paging: src/boot/virtualmemmgmt.cpp, mapPages, unmapPages and CrawlResult. The record VirtualMemory of
-- Paging/Tables is the physical allocator, the entries of all tables by the physical address of the
-- table, and the root. The code reaches a table at a virtual address that goes through the recursive
-- entry of the root; the model reads and writes the table that the crawl found at that level, or that
-- was made for it, and Paging/Recursive relates the two. Paging/Mapping is mapPages, whose loops over
-- levels and pages count down, and Paging/Unmapping is unmapPages. The walk of the processor is in
-- Paging/Tree, with the invariant that the tables form a tree; Paging/Sound joins it with the invariant
-- of the allocator. The caches of the processor, the allocator's own memory and access rights are not
-- part of the walk.
--
-- Heap: src/boot/heapmemmgmt.cpp. The list of regions is a list of the records HeapHeader of
-- Heap/Regions; the memory of a region is its entries by address and its entry table, so regions do not
-- overlap, and what callers write into their blocks does not touch the entries. The entry table has
-- table_slots entries. allocate, free and validHeap are in Heap/Regions and create in Heap/Creation. A
-- call panics, writes through a null pointer, writes behind the entry table, or returns. The loops over entries take the size of the region as fuel, and an entry takes at
-- least 16 bytes, so it is enough. Heap/Tiling says what blocks a region is made of, and the other files
-- prove allocate against it. The addresses inside a region do not wrap around.
--
-- FileSystem: src/drivers/filesystems.cpp. The functions on paths are in FileSystem/Paths. A path is a list
-- of bytes. The loops over a path are recursions on it; where a loop copies a part of the path when it
-- meets a slash, the recursion carries the part. The functions on nodes are in FileSystem/Nodes: shared
-- pointers are numbers, a store gives the nodes and the descriptors they point to, and the virtual
-- methods of a file system, which read directories and files, are parameters.
--
-- Unicode: src/boot/unicode.cpp. Strings are lists of bytes or of 16-bit words. Unicode/Encode holds
-- toUtf8 and toCodePoint of UTF-16, Unicode/Decode toCodePoint and isValidUtf8 of UTF-8. A loop over a
-- string takes its length as fuel, and each round uses a unit at least. A panic is the result none.
-- Unicode/Grammar gives the shape that isValidUtf8 looks at, lead bytes with as many continuation bytes
-- as they announce, which texts that are not UTF-8 can have too; the grammar of UTF-8 in RFC 3629 is in
-- Unicode/Strict.
--
-- LibC: src/lib/libkc++.cpp, lines 21 to 100. Memory is a function from addresses to bytes; addresses do
-- not wrap around. The loops over a terminated string take fuel, and the theorems on them give the fuel
-- that is enough.
--
-- Terminal: src/boot/terminal.cpp. The static variables are the record Terminal of Terminal/Screen; the
-- bytes written to the ports of the VGA are kept as a list. isTerminalMode is constantly true, so its
-- tests are left out, as is the lock. The loops count their rounds down. Terminal/Numbers prints numbers;
-- the digits of a number of 64 bits fit in the array of 24, whose length is the fuel.
--
-- Scheduler: src/boot/scheduler.cpp, timerLoop and queueEvent, in Scheduler/Loop. What resuming a
-- coroutine does to the rest of the kernel, and which events it queues, is a parameter.
--
-- Keyboard: src/drivers/ps2/keyboard.cpp. The static variables are the record Keyboard of
-- Keyboard/Handler, with the bytes sent to the controller; its acknowledgements are a parameter. The
-- values of the scan codes are in Keyboard/Codes. The masking of the interrupt while the LEDs are set,
-- and the acknowledgement of the interrupt, are left out, as is initialize.
--
-- Not modelled: the output of the progress messages, the assembly files, the device drivers but for the
-- keyboard's scan codes, the Joliet file system, the tables of the firmware, and the copy of the GNU C++
-- library under src/include/std.
pub mod Prelude
pub mod Physical
pub mod Virtual
pub mod Paging
pub mod Heap
pub mod Scheduler
pub mod FileSystem
pub mod Unicode
pub mod LibC
pub mod Terminal
pub mod Keyboard
