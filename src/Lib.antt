-- ===== src/Lib.antt =====
-- A verification library for the C programs of this repository. Each program has its module; they
-- share only Base, and the stream of random numbers of Kitty/Random.
--
-- Base: the names that all modules share; Base/Tests the Boolean tests on numbers, Base/Lists
-- lists measured and indexed by native numbers, Base/Sums sums over an array, Base/Int the
-- integers for C's `int`. Arithmetic on `int` is that of the integers: the programs stay far
-- within its range, so overflow is not modelled.
--
-- Thread: System Programming/Final Project: Reimplementation of the cthread library/src/thread.c,
-- built without PREEMPTION. `Runtime` is the static variables and the heap of `struct thread_s`;
-- each operation is a function on it under the name it has in C. What a context switch does is
-- that the first thread of the queue goes on. Thread/Invariant says when a runtime is valid,
-- Thread/Rotation what yielding does to the queue, Thread/Cleanup what `free_all` releases.
-- Thread/System is whole programs: a thread is in user code, in the loop of `thread_join` or in
-- that of `thread_mutex_lock`, and one step is one turn of the running thread (`step`, `Reach`).
-- The contexts of ucontext and the timer of PREEMPTION are not modelled.
--
-- Kitty: Software Engineering/Semester Final Project: KittyWonderland card game/src. Random is
-- utils.c's `randint` over the stream that `rand` returns, Cards and Deck are cards.c and deck.c,
-- Board is the search and the distance of board.c on the torus of 50 by 50, Entity is entity.c,
-- Game is what the cards do (cards.c) and a turn (game.c), Round is death and the end of a turn
-- (game.c), Move is `move_entities` (board.c), with fuel for one round per entity in its first
-- loop, which is enough for the same reason as below. Entities are on a heap, and the array of
-- the game holds their addresses, so that one entity may be caster and target at once. The loop
-- of `purge_the_dead` has fuel for one round per entity, which is enough, since a round settles a
-- place or takes one away. The loop of `apply_card` that draws a target until it is another
-- entity has fuel that the caller gives: it may draw for ever, and so may that of `init_board`
-- that draws a free cell. Play is `play_game` (game.c) and `init_board` (board.c): `start_game`
-- is the set-up, `game_step` one step of the main loop (its test and the moves, the turn of one
-- entity, or the end of a turn), and `Reached` the states that these lead to. The display is not
-- modelled.
--
-- Life: Parallel Computing/Final Project: The Game of Life/fichiers/src/vie.c, the sequential
-- versions and some parallel ones. `Images` is the two images; DIM and GRAIN are arguments.
-- Life/Region says what it means to compute a region, Life/Generation what each function computes,
-- Life/Versions compares the versions, Life/Stop is the loop over the iterations. Life/Distrib is
-- pthread_distrib.c, whose calls are critical sections, so that a run is a sequence of calls.
-- Life/Parallel is the OpenMP versions whose tiles are spread over threads: a run is an order of
-- the tiles in each iteration, together with the iterations in which the unsynchronised `change |=
-- ...` leaves a change (`kept`, an argument). Life/Scheduler is scheduler.c: a worker's array of
-- tasks (Scheduler/Ring: as a queue), and the runs, in which tasks are created, workers do their
-- steps and are told to end (`Order`); a critical section is a step. Which workers may come back
-- from pthread_cond_wait without a signal is an argument of the runs (`wakes`), since POSIX allows
-- it and the code waits with an `if`: Order/Repeats and Order/Taken are about all runs, and what
-- holds only without such returns has the hypothesis `OnlySignals`. Adding a task, which takes two
-- mutexes one after the other, is one step. Life/Lazy is the version with lazy tiles and its marks,
-- with the loop of main.c that computes an iteration and shows the image: Lazy/Skipping says which
-- cells an iteration computes, Lazy/Around which tiles and cells are around one, Lazy/Ready when a
-- tile may be skipped, Lazy/Rounds compares it with the basic version; Lazy/Parallel is its
-- versions with a parallel loop. The patterns of the first image, OpenCL and the framework around
-- vie.c are not modelled.
--
-- Aquarium: Computer Networks/Final Project: Client-Server architecture/controller/src, the files
-- state.c, protocol.c, command.c, config.c and utils.c. `Aquarium` is the global variable of that
-- name: an array is the list of its cells in use together with its capacity. Views and Fishes are
-- the two halves of state.c, Protocol is the answers to the clients and the list of observers,
-- Protocol/Clients the events of a run, Protocol/Timeout a round of the timeout thread, and
-- Protocol/Messages `protocol_execute` on the text of a message (Messages/Requests: the requests
-- that clients know); in these, what `regexec` matches and `atoi` are arguments. Views/Allocation
-- says which view a client gets. Text is numbers in decimal, lines and regular expressions as far
-- as command.c and config.c use them; the buffers of 50 bytes for the parameters of an expression
-- are not modelled, so what reads a text of any length has the hypothesis that the numbers, or the
-- parameters, are short enough for them. Commands is the administrator's commands: Commands/Saved
-- is what is written to a file and read again, Commands/Execute the aquarium after any command.
-- Config is `get_config` on the text of the configuration file. The loop that reads lines has the
-- length of the text as fuel, which is enough since no line is empty. The time and `rand` are
-- arguments. The formatting of answers, the sockets and the server loop are not modelled.
pub mod Base
pub mod Thread
pub mod Kitty
pub mod Life
pub mod Aquarium
