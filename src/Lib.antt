-- ===== src/Lib.antt =====
-- A model of parts of the runtime of MPL (runtime/gc), the C code under the compiled programs: the
-- scheduler's deques, the hierarchical heaps of its threads, the reclamation of heap records, and the
-- allocators of blocks, of chunks and of elements of one size.
--
-- The parts and their files:
-- * Deque.antt, Deque/: the deque of one processor (abp-deque.c over the macros of local-scope.h).
--   The owner pushes and pops at the bottom, others pop at the top. `Deque` holds the two shared
--   words and the array; `push_bot`, `try_pop_bot`, `try_pop_top` and `set_depth` are the functions
--   ABP_deque_*. Refine.antt compares them with a list, Race.antt cuts the two pops where they touch
--   the shared words and runs the pieces in a given order, true for the owner and false for the
--   other.
-- * Ebr.antt, Ebr/: epoch-based reclamation (ebr.c, ebr.h), through which heap records are freed.
--   `leave_quiescent_state` is EBR_leaveQuiescentState, and its parts `leave_rotate`, `leave_check`,
--   `leave_advance` and `leave_announce` are the steps of System.antt, whose other steps are
--   `enter_quiescent_state` and `retire`. A system also carries, for the statements alone, the
--   epochs of the last announcements and of the retirements.
-- * Blocks.antt, Blocks/: the block allocator (block-allocator.c, block-allocator.h), from which all
--   of the above takes its memory. A memory has superblocks, allocators and the three words at the
--   start of every block, which the C code reads under several layouts; the groups of superblocks
--   are in Group.antt, the operations on superblocks in Super.antt, megablocks in Mega.antt, and
--   allocateBlocksWithPurpose and freeBlocks in Api.antt, the counts in Usage.antt.
-- * Chunks.antt, Chunks/: chunks and the lists that hold them (chunk.c, chunk.h), on blocks of the
--   allocator. A store has the chunks, the lists and the union-find nodes that lead from a chunk to
--   its heap (Heads.antt); the chunk's own operations are in Chunks.antt, those on two lists and
--   those that need blocks in Lists.antt.
-- * ConcLists.antt, ConcLists/: lists of chunks that several processors append to
--   (concurrent-list.c), and the remembered sets of heaps (remembered-set.c), each a list of chunks
--   and a concurrent list. What is done under the mutex of a list is one step; `store_in_conc_list`
--   takes what other processors do in its rounds, between the looks at the list and its changes.
-- * Heaps.antt, Heaps/: the heaps of a thread (hierarchical-heap.c), linked from the deepest up, with
--   the union-find nodes that stand for them, on chunks and remembered sets. `zip` is HM_HH_zip,
--   which merges two paths at a join; Links.antt has the chains of subheaps under collection,
--   Completed.antt their merge and HM_HH_promoteChunks, Levels.antt the heaps by depth and the new
--   chunks, Scope.antt the policies of collection, and Free.antt HM_HH_freeAllDependants. Places within
--   the structure of a heap are those of a machine with words of 64 bits, and those of new heaps and
--   nodes are arguments, as are the blocks of new chunks. A stack of roots that is freed is recorded
--   in `freed_stacks`.
-- * Suspects.antt, Suspects/: the objects that may be entangled (entanglement-suspects.c), marked in
--   their headers and listed in chunks at a heap. `clear_suspect_par_safe` takes the headers that other
--   processors write before each of its compare-and-swaps; Sets.antt has the sets of chunks that are
--   cleared in parallel. The chunks that a grain moves suspects to are the list of the moved ones with
--   their depths.
-- * FixedSize.antt, FixedSize/: the allocator of elements of one size (fixed-size-allocator.c), on
--   chunks; the heap records of Ebr are freed to it. An arena adds to a store of chunks the
--   allocators, the first words of the elements and the words in the start gaps of chunks.
-- * Objects.antt, Objects/: objects, their headers and sizes (object.c, forward.c, sequence.c,
--   object-size.c, align.c) in a memory of words, and the bits by which objects are pinned (pin.c).
--   The loop of `pin_object_info` takes the headers that other processors write before each of its
--   compare-and-swaps.
-- * WorkList.antt, WorkList/: the work list of the concurrent collector (cc-work-list.c), on chunks
--   and objects. `advance_one_field` is advanceOneField; the lists of fields that it comes by are in
--   Fields.antt and Frames.antt, and the operations on the chunks in Ops.antt.
-- * CcStack.antt, CcStack/: the bags of forgotten objects of each processor (concurrent-stack.c), on
--   chunks. `try_close` is CC_stack_try_close, with the store that its second loop finds as an
--   argument.
-- * Stacks.antt, Stacks/: the sizes of stacks, their copies and their promotion stacks (stack.c), in
--   the memory of objects. What a frame is is a parameter, as the compiler makes the table of frames.
-- * Decheck.antt, Decheck/: the names of tasks in the tree of forks, and the test whether one task
--   comes before another (decheck.c), by which entanglement is found. `Tid` is decheck_tid_t.
-- * Time.antt, Time/: the arithmetic of times (rusage.c), the histogram of times (time-histogram.c)
--   and the sampler (sampler.c).
-- * Align.antt, Align/: the masks of runtime/util/align.h.
-- * Base.antt, Base/: numbers, tests, arrays as lists, bits of words, and linked lists in memory.
--
-- Numbers are natural numbers; where a machine word can wrap, `% 2 ^ w` is written. `none`, or a
-- constructor of its own, stands for an exit by DIE, for a shift that C leaves undefined, and for a
-- loop that ran out of fuel. The fuel of a loop over a linked list in memory is the length of the
-- list, which the lemmas about it state; `computeSizeClass` has one unit for each of the 64 shifts
-- that C defines.
--
-- Not modelled: the orders of memory weaker than sequential consistency, for the steps of a
-- processor happen in the order of its program; the rounding of the float in `fullness`, which is
-- an exact comparison here, of the quotient in `maybeSample`, and of the products with the ratios
-- of stack sizes and of the policies of collection; assertions, logging and tracing; what
-- GC_mmapAnon does, whose results are arguments. Addresses of superblocks, allocators and blocks
-- are apart, as a superblock's own structure takes the first of its blocks. The size of a chunk's
-- structure is that of a machine with words of 64 bits. The shifts of decheck.c are those of tasks
-- below the greatest depth of forks. What is left in a node that is freed or retired is an
-- argument of `free_all_dependants`. The registration of collections at heaps with its copies of
-- stacks, the collectors, the rest of runtime/gc, the basis library and the compiler are outside
-- this model.
pub mod Base
pub mod Deque
pub mod Ebr
pub mod Blocks
pub mod Chunks
pub mod ConcLists
pub mod Heaps
pub mod FixedSize
pub mod Align
pub mod Time
pub mod Objects
pub mod Decheck
pub mod WorkList
pub mod Stacks
pub mod Suspects
pub mod CcStack
