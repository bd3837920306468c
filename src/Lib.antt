-- ===== src/Lib.antt =====
-- muir simulates the MIT CADR and its successor QUUX. This library models the parts of it that
-- compute: the microcode engine with the processor's array, its multiply and the
-- microinstruction's fields, the console's registers, the virtual memory map, the microcode stack,
-- the clocks of the register page, the macro dispatch memory, the memory cache and port, the
-- display's sync program, checkpoints, the files of microcode, and the Chaosnet from a packet's
-- fields to the level changes on the cable.
--
-- Base holds what the others share: lists with native indices (Base/Seq), Boolean tests and the
-- fields of a word (Base/Test), the bit operations (Base/Bits), signed words (Base/Int), memories
-- (Base/Memory).
--
-- Chaos follows src/chaos. Chaos/Packet, Chaos/Check and Chaos/Frame model packet.rs:
-- Packet::words, to_buffer and from_buffer; check_word; frame, unframe, unframe_any and
-- header_on_the_wire. Chaos/Wire models wire.rs: encode, the Decoder's edge, next_due and at, and
-- decode. A packet goes from Packet to Frame to Wire and back, and Chaos/Link composes the last
-- two.
--
-- Processor follows src/ttl.rs (Processor/Alu: alu, alu_tag, alu_control), src/muldiv.rs
-- (Processor/Muldiv: decode, run and the steps, which use Alu) and src/isa.rs (Processor/Isa:
-- Insn's fields; Processor/Isa/Asm: the module asm).
--
-- Machine follows src/machine.rs: Machine/Geometry the Geometry of each machine; Machine/Timer the
-- Rtc, IntervalTimer and Timers; Machine/Map translate and write_map with Geometry's helpers;
-- Machine/Spc push_spc and pop_spc; Machine/MacroDispatch the module macro_dispatch and
-- MacroDispatch. Machine/Console models src/spy.rs, the console's registers as words. A function
-- that changes the machine takes and returns the part of its state that it changes.
--
-- Micro follows src/micro.rs, the engine that runs a microinstruction at a time. Micro/State has
-- its state, with the part of the machine's that it reads or writes, in groups: the data path, the
-- pipeline, the memory port, the clock, and, in files of their own with their operations, the
-- microcode stack (Micro/Stack), the PDL buffer (Micro/Pdl) and the location counter
-- (Micro/Counter). Micro/Shifter has rol, rol40, mask40 and lc_rotation; Micro/Port start_cycle,
-- start_read, start_write, read, next_microcycle_holds_the_write, step_lc and the map's writes;
-- Micro/Sources read_functional; Micro/Dests write_functional and write_dest; Micro/Arithmetic
-- alu; Micro/Bytes byte and byte_13; Micro/Conditions jump_condition and jump_condition_13;
-- Micro/Jumps jump, main_loop_return and write_imem; Micro/Dispatch dispatch; Micro/Edge
-- mclk_edge, speedclk, advance_pipeline, opc_clock and fetch_and_clock; Micro/Operands the head of
-- a microcycle and Micro/Step boot and step; Micro/Spy spy_read; Micro/Boot new. The engine's
-- Result is left out: its only error, Halt::UnknownDest, is made nowhere. The bus beyond the
-- processor is a parameter, the record Devices of Micro/State: bus_read, bus_write, interrupt,
-- advance and bus_reset, on a state of any type beside the console's registers and the timers,
-- which a bus cycle may change; nothing is assumed of them.
--
-- Memory follows src/cache.rs (Memory/Cache), src/clock.rs (Memory/Cycle: Speed and TimingModel)
-- and src/memory_port.rs (Memory/Port: MemoryPort, which holds a Cache and a TimingModel). The
-- order of the port's operations is the caller's: Memory/Port/Runs allows any.
-- Memory/Port/Transfers has what src/rtl.rs does with the prefetch, start_bus_cycle's and the
-- edge's part of it and the test of a word's use, and how Machine's disks and file device write
-- main memory and set dma_written.
--
-- Video/Sync models src/tv/sync.rs: Instruction's fields, and what a Timeline answers (sync_at,
-- tvma_clrs_by, next_tvma_clr_after); the run that makes it, Timeline::of, is not modelled: a
-- Timeline is any.
--
-- Checkpoint follows src/checkpoint.rs: Checkpoint/Writer and Checkpoint/Reader the fixed-width
-- fields that Writer puts and Reader takes back, Checkpoint/Packing pack and unpack with varint
-- and unvarint, and Checkpoint/File the file that write makes and read takes. What the standard
-- library's test for UTF-8 makes of a name is a parameter, and the reads and writes of the file
-- itself are left out. Each part of a machine that is kept has a module Saves with its save and
-- its load: Machine/Timer/Saves, Machine/MacroDispatch/Saves, Machine/Console/Saves,
-- Memory/Cache/Saves, Memory/Port/Saves; Machine/Saves has the first part of Machine::save and
-- load_to_geometry, up to and with the file device's, and Micro/Saves what the engine keeps of
-- itself, after its machine. Machine/FileDevice is the part of src/file_device.rs that is kept,
-- its registers, with save and load.
--
-- Microcode follows src/mcr.rs (Microcode/Mcr: parse, parse_partition_order and swap_halves) and
-- src/prom.rs (Microcode/Prom: parse_mcr, parse_quux_mcr, and programming and unprogramming, which
-- say how a word is burned into the PROM's chips).
--
-- Numbers are natural numbers. A word's wrap is written out where the code's can wrap, as a
-- remainder by a power of two; times, in nanoseconds, wrap only in Machine/Timer, whose theorems
-- say for how long they hold, and are taken not to reach 2^64 elsewhere, as are the engine's
-- counts. A memory is a function of the address where the code indexes it by a masked value, and a
-- list elsewhere.
--
-- The two loops of the cable's decoder run on fuel, `rounds` in Chaos/Wire, of three rounds: each
-- round uses up the decoder's sample or its cell, so that two leave nothing due. In
-- Checkpoint/Packing, varint has fuel for the ten groups of a 64-bit count, pack a turn for each
-- byte of its body, since a turn takes one at least, and unpack a turn for each byte of its input,
-- of which a turn takes two, and one to stop; in Microcode/Mcr, parse has a turn for each byte of
-- the file, of which a section takes twelve, and one to stop. An input that used up its fuel would
-- be refused as out_of_fuel, an error that the source does not have.
--
-- Not modelled: input and output, the part of a machine's checkpoint from its main memory on, the
-- listings that prom.rs reads, counts kept for a profile, messages' text, the netlist simulator,
-- the rest of the register-transfer engine, and the devices other than those above.
pub mod Base
pub mod Processor
pub mod Machine
pub mod Chaos
pub mod Memory
pub mod Micro
pub mod Video
pub mod Checkpoint
pub mod Microcode
