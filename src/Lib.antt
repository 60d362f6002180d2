-- ===== src/Lib.antt =====
-- Verification of the core of pkt2, which receives binary packets of devices, describes them by
-- protobuf messages with options, and passes them on to databases and files.
--
-- The parts, and the files that model them:
--
-- Huff: the Huffman coder of huff/.
--   Huff/Node.antt: the trees and code maps (huff/node.h, leafnode.cpp, internalnode.cpp, and
--     generateCodes, find_code, set_code_flag, clear_code_flag, get_tree_max_depth of
--     huff/huffcode.cpp). An inner node carries the weight that its constructor computes.
--   Huff/Build.antt: buildFrequencies, buildTree and buildTreeFromCodes. The std::priority_queue
--     is a parameter (PriorityQueue) that gives back one of the lightest nodes, and no node twice:
--     which of several lightest nodes it gives is left open. The loop runs on as many rounds as
--     there are leaves, each round leaving one tree less.
--   Huff/Stream.antt: third_party/bitstream as a parameter (BitStream). What is read from a stream
--     whose bytes have been taken by iterators is left open.
--   Huff/Compress.antt: compress, compress_buffer and compress_buffer_calc_only. The input buffer
--     is part of the state, since bitsRequired writes into it.
--   Huff/Decompress.antt: decompress, decompress_buffer and decompress_stream. The endless loop
--     runs on fuel and has the outcome `running` where the fuel is used up; one more round than
--     there are bits in the stream is given, and more do not change the outcome.
--   Huff/Device.antt: dec_hafman of huff/devdecoder.cpp, the decoder of a device.
--   Huff/Modes.antt: decompress with its mode, of which mode 2 runs that decoder, and decompress2.
--   Huff/Coder.antt: the classes of huff/huffmanmodifiedencoder.cpp (Huff/Coder/Encoder.antt) and
--     huff/huffmanmodifieddecoder.cpp (Huff/Coder/Decoder.antt). A method takes the object and
--     returns the one afterwards; decompress leaves its flags in the tree of the decoder.
-- Fields: utilprotobuf.cpp, the bytes of a packet that a pkt2::Field describes: extractField,
--   extractFieldUInt, setFieldUInt and getPacketSize, and in Fields/Signed.antt extractFieldInt and
--   setFieldInt. `none` is what the source leaves undefined.
-- Tags: Pkt2PacketVariable of pkt2packetvariable.cpp: validTags, setTags and getEmptyPacket, which
--   call the functions of Fields for each field of the packet that has a tag.
-- Cache: pkt2optionscache.cpp, the map of packet variables by message name: find1, which tries
--   validTags of Tags on each entry and on the messages nested in it, and getIndex. The descriptors
--   of protobuf are a parameter. validTags calls itself on fuel: with the full name of a field it
--   finds no descriptor, so two levels are enough. Cache/Keys.antt is the part of the constructor of
--   Pkt2PacketVariable that makes the key indexes, whose loop runs on fuel, since its bound grows
--   while it runs; Cache/Key.antt is getKey, which makes the key of a message of them.
-- Messages: the walks over a message. The reflection of protobuf is a parameter (Reflection of
--   Messages.antt): what it shows of a message, and how it changes one. Messages/Decompose.antt is
--   MessageDecomposer of messagedecomposer.cpp, which calls a callback for each value;
--   Messages/Compose.antt is MessageComposer of messagecomposer.cpp, which fills a message with what
--   its callbacks answer; Messages/Packet.antt is packet2message.cpp, whose callbacks take the
--   answers from the JavaScript engine (a parameter) by the variables of Cache. The walks call
--   themselves on fuel for the depth of the messages, which is enough where it is above a rank of
--   the message type; the loops that a callback ends run on fuel of their own.
-- Rows: fieldnamevalueindexstrings.cpp, the texts that a message becomes: Rows/Insert.antt,
--   Rows/Insert2.antt and Rows/Create.antt are SQL statements, Rows/Lines.antt are CSV,
--   tab-delimited and JSON lines. A loop that counts fields is `cells_loop` with a function for what
--   one round writes.
-- Format: messageformat.cpp, which puts these together: the decomposer of Messages calls back with
--   each value, its text (MessageDecomposer::toString and format) is added to Rows, and the line or
--   statement of Rows is written. The JavaScript engine is a parameter, with its state.
-- Delimited: writeDelimitedMessage and readDelimitedMessage of utilprotobuf.cpp, by which the programs
--   pass on messages one after another, and decode of protobuf-declarations.cpp. What the protobuf
--   library writes and reads is a parameter (Wire).
-- InputPacket: input-packet.cpp, the packet that one program sends to another over nanomsg.
-- Repeator: repeator.cpp: run, which connects its sockets, forwards messages until a signal sets its
--   flag, cleans up and starts again or returns, and runner (Repeator/Retries.antt), which calls it
--   again. What the sockets answer and when signals arrive is an argument.
-- Strings: utilstring.cpp: trim, split, and hexadecimal text, for which strtol of two characters is
--   written out.
-- Errors: getErrorDescription of errorcodes.cpp.
-- Common: lists and bytes measured by native numbers, tests, and evaluation of a table.
--
-- Bounds: a byte is a number below 256 and a sum of type size_t is taken modulo 2^64, that of two
-- uint32 modulo 2^32. The weight of a node, an int, is the number of its 32 bits; a sum of weights
-- that does not fit, which the language leaves undefined, wraps around. The varint of a length
-- descriptor has four bytes in the source, hence the bound 2^28.
--
-- Not modelled: the text formats of codes and frequencies, floating-point fields, the functions of the
-- encoder and decoder classes that read a file or return a std::string, and everything that mostly
-- calls sockets, databases, the protobuf library or the JavaScript engine.
pub mod Common
pub mod Cache
pub mod Delimited
pub mod Errors
pub mod Fields
pub mod Format
pub mod Huff
pub mod InputPacket
pub mod Messages
pub mod Repeator
pub mod Rows
pub mod Strings
pub mod Tags
