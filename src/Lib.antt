-- ===== src/Lib.antt =====
-- USB/IP server: a library that lets a program be a USB device for a remote host, and example devices.
--
-- The program. A device is a set of descriptors and callbacks (include/usbip_server_api.h). The server
-- thread (src/lib/usbip_server.c) accepts one client and calls the protocol (src/lib/usbip_protocol.c),
-- which answers operations (device list, import) until a device is imported, and then the USB
-- transfers the client submits or unlinks. Control requests go to src/lib/usbip_device.c, which answers
-- the standard ones and passes all to the device; data for the host waits in endpoint buffers, one for
-- each endpoint, which the device's threads fill and the protocol empties.
--
-- The files.
--   Prelude, Prelude/*: Boolean tests on numbers, C arrays as lists, machine words, decimal numbers, loops
--     on fuel.
--   Device/Api: `usbip_device_t`. A callback is an `Action`, a value that may ask for transmits.
--   Device/Buffers: the endpoint buffers of src/lib/usbip_device.c. Each function is a critical section
--     of the mutex, so any interleaving of threads is a list of such sections (Device/Buffers/Events).
--     Device/Buffers/Delivery and Capacity are about what is delivered and about the buffers' size.
--   Device/Control: `usbip_device_control` and the calls of the other callbacks; Requests is about
--     standard requests, Preserve says what no callback can break.
--   Device/OtherSpeed: `build_other_speed_config`.
--   Protocol/Conn: the connection, as `tcpip_server_read` and `tcpip_server_write` present it.
--   Tcpip: the loops of `tcpip_server_read` and `tcpip_server_write` over the operating system's `read` and
--     `write`, whose outcomes are a list; Tcpip/Refine and Tcpip/Writes compare
--     them with Protocol/Conn. Tcpip/Sockets opens, accepts, waits and closes, with the descriptors that
--     are open as its state.
--   Protocol/Messages: the packed structs of src/lib/usbip_protocol_definitions.h as bytes.
--   Protocol/State: the static variables of src/lib/usbip_protocol.c as one record, `Server`, with the
--     device and the connection; its invariant is in Protocol/State/Invariant.
--   Protocol/Complete/Answers: which transfers a pass over the pending ones answers, and with what.
--   Protocol/Endpoints, Reply, Submit, Unlink, Complete, Operations, Serve: the functions of
--     src/lib/usbip_protocol.c under their own names, and the parts of the long ones under names for
--     what they do. Serve has the two entry points that the server thread calls; Serve/Rounds says abstractly
--     what a client is told.
--   Worker: the handler of Ctrl-C and the worker thread of src/lib/usbip_server.c, over the two functions
--     of Protocol/Serve. What the outside decides (clients, rounds, times) is a list. Worker/Sockets is the
--     start and the end of the server, and the thread together with its sockets.
--   Bulk: the example of src/usb_bulk, with its main loop in Bulk/Loop; Bulk/Tests, Bulk/Transfers and
--     Bulk/Sockets run theorems on the state of Bulk/Fixtures.
--   Keyboard: the table from characters to keys of src/usb_keyboard, what it types (Keyboard/Typing) and
--     when (Keyboard/Loop); Keyboard/Usb has its descriptors and its control requests.
--   Cdc, Mouse, Audio: the examples of src/usb_cdc, src/usb_mouse and src/usb_audio_input, with the main
--     loops of the first two in Cdc/Loop and Mouse/Circle.
--   Display: the GUD display of src/usb_gud_display; Display/Loop is its main loop, Display/Pixels is what
--     its window shows, Display/Window is gud_display_window.c, and Display/Pieces is about a rectangle that
--     comes in several transfers.
--   Devices: all examples served to clients, and the report descriptors of the keyboard and the mouse.
--
-- State and failure. A function that returns a status and writes static variables is a function from
-- `Server` to a Boolean and a `Server`. Bytes are numbers below 256 where the source reads them, and
-- additions on `uint32_t`, `uint64_t` and `size_t` that can wrap are taken modulo 2 ^ w.
--
-- Loops and fuel. Loops over arrays and packets are recursion on lists. The others run on fuel
-- (Prelude/Loop): a walk over a descriptor has as much as the descriptor says it is long, and a pass over
-- the pending transfers has one round for each, and a measure falls in each round.
-- `get_next_interface_idx` may not end in the source, or read a byte behind the configuration: it is `none`
-- then, and the operations that call it are `Option`. A configuration that has the interfaces that it
-- announces (Protocol/Operations/Ends) gives neither.
--
-- Not modelled. The operating system: what its calls return is an argument, as is the time; threads are
-- orders of critical sections, and of the wait in `usbip_device_transmit` there is the condition.
-- Callbacks are arguments.
-- What is computed with floating point numbers is a parameter: the mouse's places on the circle, and the
-- microphone's tone. What the programs print is left out but for the input of the bulk device, as are the
-- times that they sleep; SDL is what its calls return.
pub mod Prelude
pub mod Device
pub mod Protocol
pub mod Tcpip
pub mod Worker
pub mod Devices
pub mod Cdc
pub mod Mouse
pub mod Audio
pub mod Bulk
pub mod Keyboard
pub mod Display
