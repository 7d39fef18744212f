-- ===== src/Lib.antt =====
-- Verification of the C++ examples of zzdds-examples: programs that talk to each other over the
-- zzdds implementation of DDS.
--
-- The programs and how they interact. Each example is a publisher and a subscriber that run as two
-- processes. main creates a participant, a topic and a writer or a reader; listeners are called on
-- threads of the library and set flags that main polls; an error prints one FAIL line on stderr
-- and ends the process with status 1. cpp/shape is one program for both sides, with a command line
-- of some forty options, several topics and instances, and content checks on what is received.
--
-- How a program is modelled. `Runtime.Program` has a monad with a log of all that the program does,
-- a state (the shared state and the locals) and three ends: a result, an exit status, and `stuck`
-- for a loop out of fuel, an index out of range or a null pointer. The library is a parameter, the record `Env`: what
-- each call answers is an arbitrary function of the log so far, `arrivals` says which callbacks the
-- library's threads have run since main last looked at the shared state, and `interrupted` whether
-- SIGINT has come. A theorem for all `env` thus holds for every behaviour of the library and every
-- order of the callbacks. `Runtime.Contract` and `Runtime.Contract.Seen` are the rules for what
-- holds after each kind of end, where `stuck` has no contract; `Runtime.Invariant` has the rules for
-- what holds in every world that a run of any length reaches; `Runtime.Wait` is the polling loop.
--
-- Files.
--   Base: numbers, tests, C strings, strtol and strtoul as the C standard describes them.
--   Dds: the types of the DDS binding, with the members that the sources use.
--   Apps/Common: parse_domain, PubState and PubListener, the set-up calls, the write loop, and
--     SubListener::on_data_available (Receiver), of which every reference application has a copy.
--   Apps/HelloWorld: main of cpp/hello_world/src/publisher.cpp and subscriber.cpp.
--   Apps/Discovery: main of cpp/discovery/src/publisher.cpp and subscriber.cpp; Matched is the look-up
--     of a matched endpoint that both have.
--   Apps/ParticipantConfig: main of cpp/participant-config/src/publisher.cpp and subscriber.cpp, with
--     the steps up to the topic that both have.
--   Apps/Common/Script: the rules for publishers that do a fixed list of things in order.
--   Apps/Presence: main of cpp/presence/src/publisher.cpp and subscriber.cpp; Publisher/Schedule is what
--     a reader can notice of the publisher, Subscriber/Cycle the cycle that the phases look for.
--   Apps/Registry: main of cpp/registry/src/publisher.cpp and subscriber.cpp; Subscriber/Tracks and
--     Subscriber/Lines say what the tracks of the instances have to do with the printed lines.
--   Apps/Catchup: main of cpp/catchup/src/publisher.cpp and subscriber.cpp; Subscriber/Flags and
--     Subscriber/Progress say what the flags have to do with the printed lines.
--   Apps/Waitset: main of cpp/waitset/src/publisher.cpp and subscriber.cpp; what a WaitSet and the
--     watchdog thread do is a parameter. Publisher/Tale and Subscriber/Sights are what can be seen of a
--     run, with the calls of wait() that the watchdog's deadline is counted in.
--   Allocator/Pool: cpp/custom-allocator/src/static_pool_allocator.c; Spec is the abstract pool, Refines
--     the simulation, Address the bytes of a block.
--   Allocator/Guard: cpp/custom-allocator/src/noalloc_guard_preload.cpp, the steps of one thread; Armed
--     is about its watch, Bootstrap about its pool.
--   Shape/Options, Shape/Args: Options and parse_args of cpp/shape/src/shape_main.cpp.
--   Shape/Qos: the QoS builders there, with the DDS rules of compatibility in Shape/Qos/Match.
--   Shape/Topics: create_extra_topics, topic_at, name_at, instance_color.
--   Shape/Sample, Shape/Publisher: ShapeType, run_publisher and its listener.
--   Shape/Subscriber: the take loop of run_subscriber, its cache and its content assertions;
--     Shape/Subscriber/Run is all of run_subscriber.
--   Shape/Main: main there, up to its call of run_publisher or run_subscriber.
--   Tests: the theorems and the definitions at concrete inputs.
--
-- Bounds and fuel. Words wrap as in C++: `to_u32`, `to_u16` and `to_i32` are the casts. The polling
-- loop has a round of fuel for each period within its limit and two more, which `wait_until-At`
-- shows to be enough. The loop of run_publisher takes its fuel as an argument, since a run without
-- a number of iterations has no end; the safety theorem holds for every fuel, and the termination
-- theorem says how much a finite run needs. The loops around wait() need one round more than the
-- watchdog leaves them.
--
-- The calls of take() in one callback or in one round have finitely many results before the one that
-- ends their loop, which is what the lists of results say. Counters of samples, as expected_next, are
-- natural numbers: a run of 2^31 samples is outside the model.
--
-- Not modelled: the library itself; the order of a listener's lines within a round of a polling loop;
-- the seed and the values of rand(); the usage text; the last
-- call of the shape main; the watchdog threads of waitset; opencv_zzdds and the programs of
-- custom-allocator; the ports to C, Java and Zig; the test drivers.
pub mod Allocator
pub mod Apps
pub mod Base
pub mod Dds
pub mod Runtime
pub mod Shape
pub mod Tests
