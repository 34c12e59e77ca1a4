-- ===== src/Lib.antt =====
-- A verification library for ubersdr_dsc, a receiver of digital selective calling (DSC), the
-- calling and distress system of maritime radio (ITU-R M.493).
--
-- The program. A WebSocket client or a file gives samples to `dsc_rx`, one for each channel, which
-- demodulates them to bits, finds the phasing sequence in the bits, and cuts what follows into
-- symbols of ten bits. `DSCDecoder` takes a symbol at a time: it checks the rest of the phasing,
-- puts the two copies of each symbol together, and says when a message is complete. `dsc_rx` makes a
-- `DSCMessage` of its bytes, which reads the fields, and hands it to a callback, which prints it and
-- sends it to web pages, with the country of the stations (`MMSI`) and the names of coast stations
-- (`CoastStations`).
--
-- The files.
--   Base       Shared names: the libraries', Boolean tests, lists over native numbers, signed
--              integers, laws of C's bit operations, texts, and results of fallible code.
--   Tables     The enumerations and lookup maps of `DSCMessage` (src/dsc.h, src/dsc.cpp).
--   Decoder    `DSCDecoder` (src/dsc.h, src/dsc.cpp) and `popcount` (src/popcount.h). `Decoder` is its
--              fields; `init`, `decode_symbol` and `decode_bits` are its operations, `on_phasing` to
--              `on_rx_eos` the cases of the switch. Symbol has `bitsToSymbol`, and the encoder
--              `symbolToBits` of test/dsc_rate_test.cpp. Spec describes a burst without the states;
--              Refinement, Diversity, Clean, Invariant, Progress, Codeword and Phasing are proofs.
--   Message    `DSCMessage` (src/dsc.h, src/dsc.cpp): Digits and Frequency are its helpers, Head and
--              Body the parts of `decode` in their order, Decode the whole of it. Bounds has rules for
--              composed results; Length, Stages, FrequencyLength, Ending, Numbering and Needs apply
--              them to each part; Short is about messages too short for the id of their station,
--              or, as distress alerts, for their position; Ecc and Position are about the check
--              symbol and the position.
--   Rx         `dsc_rx` (src/dsc_rx.h, src/dsc_rx.cpp) from the bits on: `receiveBit`, `init` and, in
--              Config, `rateConfigFor`. Words is about the shift register, Framing about symbols,
--              Delivery about whole bursts.
--   Demod      `dsc_rx` from the samples to the bits: the constructor, `process`, `processOneSample` and
--              `getStats`. `tune` is `processOneSample` up to the test of the clock, `take_bit` the rest
--              of it. Filter is `FirFilter` (src/firfilter.h), Maximum is `MovingMaximum`. Ready is about
--              the table of the exponential; Framing, Bits and Delivery set the samples and the bits side
--              by side.
--   Mmsi       `MMSI` (src/mmsi.cpp), with the map of countries in two child modules.
--   Stations   `CoastStations` (src/coast_stations.cpp), in six child modules.
--   Escape     `jsonEscape` (src/dsc.cpp), and a reader of JSON strings.
--   Output     What `DSCMessage` prints (src/dsc.cpp): the names of the enumerators; `toString` and
--              `toYaddNetFormat` in Lines; `toJson` in Json, in four parts. Reader is a reader of JSON
--              objects, Members the members of a message without the text; Shown and Roundtrip are proofs.
--   Pcm        The audio protocol, version 4 (src/pcm_v4.hpp). Arith and Words are the integer helpers
--              and C's words; Window the history of a filter; Real is `RealStage`, Wide and Complex
--              are `ComplexStage` with its inner class; Rice, Varint and Header read the parts of a
--              packet, Codec is `PredictiveCodec`, Stream is `PCMv4StreamDecoder`. Complex/Reference,
--              Sound, Equivalence and Streams set the two forms of the complex filter side by side;
--              Complex/Room, Taps and Clamp are about the taps' limit; Rice/Spec has the code on a
--              list of bits; Codec/Encoder and Header/Layout are the other side of the protocol.
--   Manager    `ChannelManager` (src/channel_manager.h, src/channel_manager.cpp): its channels, counters
--              and messages. `add_channel` to `stop_all` are its operations; `socket_changed`,
--              `message_counted`, `message_stored` and `session_ended` are what `channelLoop` and its
--              callbacks do to them. Steps has these as a relation; Channels, Counters and Laws are
--              proofs. Frames is `decode_pcm_v4_frame`, which calls `PCMv4StreamDecoder`, and the
--              callback's use of it; Frames/Calls has what is sent and what arrives.
--   Hub        `BroadcastHub` (src/dsc_rx_from_ubersdr.cpp): what is sent to the web server's clients, and
--              the history that a new client gets. Message is `build_message_json` with its helpers,
--              Metrics is `send_metrics`, Frequencies `parse_freq_list`; Frequencies/Written
--              describes the lists of a command line; Envelope and History are proofs.
--   Recording  The program src/dsc_rx_from_file.cpp: `read_loop` is the loop of `main` over the reads,
--              `on_message` its callback, `print_message_human` the function. Whole is proofs.
--   Examples   Concrete bursts and messages, and the theorems applied to them.
--
-- How the code is modelled. Numbers are natural numbers; a `signed char` is its bit pattern, so that
-- -1, which marks an error, is 255, and `signed_char` is its number where it is printed; a shift to
-- the left is cut at the width of the type. A string is the list of its bytes. State is passed on explicitly. An index outside an array is `none` or
-- `out_of_bounds`, an exception that nothing catches is `out_of_range`, an `int` out of range is
-- `overflow`: the first and the last are undefined in C++. `decode_all` runs the decoder over a list
-- of symbols and stops when a message is complete; nothing needs fuel, since all loops go over lists
-- or over fixed numbers of bits. `decimal_fuel` prints numbers of at most as many digits as its first
-- argument: 3 for a byte, 10 for an `int`, 20 for an `int64_t`. The reader of JSON has as much fuel as
-- the text has characters. In Pcm an `int64_t` is an integer, wrapped where the source computes in
-- `uint64_t`; the new taps of the complex filter and its steps are cut to `int32_t`; where it
-- computes in another signed type the values are small, and the model does not wrap. `unary` has the
-- number of bytes left and one more as its fuel, since each round but the last takes a byte; a
-- varint has its ten bytes.
--
-- Parameters. Floating-point numbers are abstract types, and what the code does with them is a record:
-- `Reals` for `receiveBit`, `Signals` for the demodulation, `Products` for the filters, `Levels` for the
-- sum of the levels in `ChannelMetrics`, `Averages` for the ones that are sent, and two records
-- `Formats` for the numbers that printf writes. The taps of the low-pass filters (src/firfilter.cpp,
-- sin and cos) are an argument, and so are a session's UUID, the formatting of the time of reception
-- (gmtime_r, strftime) and the time itself, the clients of the web server and what each `read` of a
-- file gives. Nothing is assumed of them, but that > is irreflexive and transitive, in the theorem that
-- the moving maximum is a greatest value.
--
-- Not modelled. The lines that `dsc_rx` prints on the standard error; the computing of the low-pass
-- taps, and the floating-point code that nothing in the build includes (src/fftfilt.*, src/gfft.h,
-- src/complex.h, src/misc.h, src/movingmaximum.h); the vector code of src/pcm_v4.hpp (AVX2, NEON),
-- of which the source says that it returns what the code frame by frame returns; the threads, sockets
-- and HTTP requests of src/channel_manager.cpp, whose operations and callbacks are each one step, but for
-- the decoder's callback, which is two, with counters that do not wrap; the command lines, sockets and files of the programs
-- src/dsc_rx_from_ubersdr.cpp and src/dsc_rx_from_file.cpp; the web page
-- src/dsc_web_ui.h; IXWebSocket/, a vendored library; and src/dsc_decoder.cpp and
-- src/dsc_message*.cpp, copies of the code that the build leaves out.
pub mod Base
pub mod Tables
pub mod Decoder
pub mod Message
pub mod Rx
pub mod Demod
pub mod Mmsi
pub mod Stations
pub mod Escape
pub mod Output
pub mod Examples
pub mod Pcm
pub mod Manager
pub mod Hub
pub mod Recording
