-- ===== src/Lib.antt =====
-- Models of the programs of the repository com0com, and theorems about them. com0com is a driver for
-- pairs of virtual serial ports; hub4com is a hub that routes the data and the signals of serial ports
-- and TCP connections through filters; com2tcp joins one COM port to one TCP connection. The setup
-- programs read and write the parameters of the ports. What is modelled here is logic that does not
-- call Windows.
--
-- How the parts of hub4com work together. What a port reads is a chain of messages (Hub/Msg, Hub/Chain:
-- hub4com/hubmsg.cpp, hub4com/export.cpp and the macros of hub4com/plugins/plugins_api.h in Hub/Word).
-- `ComHub::OnRead` (Hub/ComHub: hub4com/comhub.cpp) gives it to the filters of the port (Hub/Filters:
-- hub4com/filters.cpp), writes their echo back and sends a copy along each route (Hub/Route:
-- hub4com/route.cpp). Each filter is a module of its own below Plugins, with the function that handles
-- a message as `in_method` or `out_method`:
-- Plugins/EscParse and its Method: hub4com/plugins/escparse/filter.cpp, the parser of the escaped data
-- stream of the driver. Frames holds a grammar of that stream, which is the specification.
-- Plugins/EscInsert: hub4com/plugins/escinsert/filter.cpp, the filter that makes such a stream.
-- Plugins/Telnet: hub4com/plugins/telnet/telnet.cpp, telnet.h and opt_termtype.cpp.
-- Plugins/ComPort with Client and Server: opt_comport.cpp and opt_comport.h beside it. BaudRate,
-- LineControl, Suspension and Malformed are about the exchange between the two.
-- Plugins/Pin2Con: the filter of hub4com/plugins/pin2con, with the master's timers as numbers. Connection
-- is about one message, Level about the pin, Run about many messages.
-- Plugins/AwakSeq, Plugins/Echo, Plugins/Purge, Plugins/LsrMap: filter.cpp of those directories of
-- hub4com/plugins.
-- Com2tcp/Telnet: com2tcp/telnet.cpp and telnet.h.
-- Com2tcp/Stream: the chunked byte streams of com2tcp/utils.cxx and utils.h.
--
-- The driver (Driver: com0com/sys/bufutils.c, noise.c, rand.c, handflow.c, pinouts.c,
-- delay.c and the structures of com0com.h). A write to one port of a pair goes through `CopyCharsWithEscape` into the read buffer of the other port.
-- Driver/RawData: `C0C_RAW_DATA`, the few bytes that wait behind a full buffer.
-- Driver/Ring: where the bytes of a ring stand in its memory block.
-- Driver/Port and Driver/Noise: the fields of a port that count here, and the errors of a noisy line.
-- Driver/Line, Driver/Output and Driver/Escape: `CopyCharsWithEscape`, what the receiving port hears,
-- where the bytes go, and the insertions. Arrivals is the stream without regard to the room, Quiet that
-- of a line without noise, Decode what the grammar of Plugins/EscParse/Frames reads in it.
-- Driver/Buffer: `C0C_BUFFER` and its functions; Queue is the abstract queue of bytes.
-- Driver/HandFlow: the flow control of handflow.c. Hysteresis is about the calls that follow the
-- buffer, Settings with Remote about changes of the settings, Update about the settings without a case.
-- Driver/Pins: pinouts.c and `SetModemStatus` of io.c. Wiring is about a change of the pins, Map about
-- `PinMap`; Setup/Params/Sources joins them to the values that the setup library stores.
-- Driver/Delay: the emulation of the baud rate, delay.c. Frame is about the length of a frame, Pace about
-- the arithmetic of the limit, Sound about each step, Runs about all of them in any order.
-- Driver/TxBuffer: `C0C_TX_BUFFER`, the transmit FIFO, and its functions.
--
-- The setup library (Setup/Params: com0com/setup/params.cpp). `SetBit` sets a parameter of a port from a
-- text and `FillParametersStr` prints it. Values is about the texts, Stores about the fields that they
-- set, RoundTrip about both.
--
-- Base holds the shared names and lemmas, Hub/Memory the cells that messages point to, Plugins/Lsrmst
-- the codes of the escaped stream, and Examples the runs at concrete inputs.
--
-- State is passed on explicitly: an object is a record, a method a function from its state and a message
-- to the new state and the chain of messages in the place of that message. The union of a message has
-- its members as fields of their own. The filter pipeline is about any filters, as functions on a state
-- `W` that they share. A pointer in a message is an address in a memory of cells.
--
-- Integers are natural numbers with the wrap-around of BYTE, WORD and DWORD written out; counters of
-- type int or SIZE_T are taken not to overflow. Allocation does not fail. Loops recur on a list or on a
-- count, but for those that have fuel: the loop that erases routes, one more than the length of the map,
-- that of PutData, two rounds a byte and two more, that of GetData, a round a byte, one a chunk and one
-- more, and those of the driver's buffers, one more than the bytes to read, to fill or to move. Their theorems show that this is enough. A read behind the end of an
-- array is `none`. The SERIAL_ constants, which the Windows headers define, are a parameter, the SERIAL_LSRMST_
-- codes with their documented differences as hypotheses, and the signedness of plain bit-fields, which C++ leaves to the
-- compiler, is a parameter too, and so is `lstrcmpi`, with its documented comparison of ASCII letters.
--
-- Not modelled: the request queues and timers of the driver; the port
-- names, the splitting of parameter strings and the registry in com0com/setup, and the setup
-- programs, which call Windows; the port drivers, the loading of plugins, the timers and the command lines of hub4com and com2tcp; what is
-- printed; the filters pinmap, linectl, tag, trace and crypt; the methods of
-- the telnet filter and the start-up messages of the hub.
pub mod Base
pub mod Hub
pub mod Driver
pub mod Setup
pub mod Plugins
pub mod Com2tcp
pub mod Examples
