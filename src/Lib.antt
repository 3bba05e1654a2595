-- ===== src/Lib.antt =====
-- A radio gateway in C, and a model of its core. Devices on a radio link talk to the gateway in
-- frames of 25 bytes; hosts hand it packets for them over UDP, browsers over a websocket, and a
-- configuration names the devices and their keys. The gateway keeps its devices in a hash map under
-- a hash of their serial numbers, stamps addresses and counters on what it sends, seals each frame
-- with a random byte and a checksum, and encrypts one block of it with AES-128-CBC when the control
-- byte asks.
--
-- Which file models which part (paths from the root of the repository):
--   Base          the machine: words of 8, 16 and 32 bits, byte arrays, a heap of structs, and commands
--                 that end well, fault, or spend their fuel; texts that end with a zero, and bitwise
--                 operations
--   Links         doubly linked segments in a heap, shared by the next two
--   LinkedList    list.c and list.h: list_create is `create`, list_push `push`, and so on;
--                 LinkedList/History has runs of calls on the list of the items
--   HashMap       hashmap.c and hashmap.h: hashmap_set is `set`, hashmap_resize `resize`, and so on;
--                 HashMap/Bulk has the functions that go through a whole map, HashMap/Removal the
--                 theorems on hashmap_remove, HashMap/Contents the abstract map and HashMap/History
--                 the calls on it
--   Crypto        encryptPacket and decryptPacket of crypto.c
--   Checksum      crc16 and fnv1aHash of rf.c; Checksum/Bitwise has the reference for crc16
--   Rf            the static `rf` of rf.c and the end of a frame: the random byte and the checksum are
--                 `seal`, the encryption `protect`, both and the call of `send` `transmit`
--   Rf/Enqueue    rfEnqueuePacket is `enqueue_packet`, rfAddDevice `add_device`
--   Rf/Receive    one round of the loop of rfRecvThread is `recv_round`
--   Rf/Life       rfInit is `init`, rfOpen `open_radio`, rfDeInit `de_init`
--   Rf/Resend     rfSendPacket is `send_packet`
--   Iterator      `struct iterator` of iterator.c and iterator.h; list_next_node and hashmap_next_entry
--                 are in LinkedList/Iterate and HashMap/Iterate
--   Udp           udpInit, udpDeInit and one round of the loop of udpListener of udp.c
--   Ws            the static `ws` of ws.c, wsInit and wsDeInit, and what the thread of a connection
--                 reaches; wsRecvThread is `recv_thread` of Ws/Connection, its first half `handshake` of
--                 Ws/Handshake, its second half `frames` of Ws/Frame; wsAcceptThread and the starts of
--                 the threads that it creates are the events of Ws/Accept
--   Config        configParse of config.c is `config_parse`, its loop `walk`, the body of the loop
--                 `walk_round`; jsoneq and the tokens are in Config/Tokens, sscanf in Config/Scan
--   Gateway       `main` of rfgw.c, cut where it may return: `with_config`, `with_radio`, `with_udp`,
--                 `with_ws`, `console`
--   Tests         the theorems at concrete inputs
--
-- State. A heap is a function from addresses to structs; a `struct list` or `struct hashmap`, of which
-- the program has one owner each, is passed and returned. The record `Rf` holds the static state with
-- every object that it reaches and the frames sent so far. Each function is a command on its state; a
-- null or dangling pointer and an access outside of an array end in `fault`.
--
-- From outside. What malloc and calloc return, the random bytes, the received datagrams and segments,
-- the file, the lines of the console, the answers of the kernel and the bytes that a stack array holds
-- before are arguments. OpenSSL's EVP calls are the record `Evp`; theorems that need it assume
-- `CbcBlock`, what OpenSSL documents of one block of AES-128-CBC without padding. SHA1 and
-- EVP_EncodeBlock are the record `Digest`; EVP_DecodeBlock, with nothing for -1, and jsmn_parse are
-- functions.
--
-- Bounds. A loop over nodes or entries runs on fuel, one round more than the structure counts; the
-- theorems show that this is enough. The loop over the lines of a request runs on one round more
-- than the buffer has bytes, the loop over the tokens on one more than there are tokens. A loop
-- that waits for something from outside runs on the list of what comes, and a list at its end
-- stands for a loop that still waits, `out_of_fuel`. Words wrap as in C; sizes and counts of live
-- objects are taken to fit a size_t. The load factor is compared in integers, exactly as the double
-- comparison does for counts below 2^53.
--
-- Not modelled: printing, the threads' scheduling (each function runs to its end; the starts of the
-- threads of connections alone are events), the sockets' options and addresses, the pause between two
-- rounds of rfSendPacket, the address of the sender that a packet keeps and nothing reads, strndup
-- without memory, the length that getline is handed without a value, the blocks of wsRecvThread that
-- it gives back itself; jsmn.h, which is a copy of a third-party library.
pub mod Base
pub mod Links
pub mod LinkedList
pub mod HashMap
pub mod Iterator
pub mod Crypto
pub mod Checksum
pub mod Rf
pub mod Udp
pub mod Ws
pub mod Config
pub mod Gateway
pub mod Tests
