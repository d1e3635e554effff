-- ===== src/Lib.antt =====
-- BitMagic.ZiModem: a verification library of the native host side.
--
-- The program runs the firmware of a modem as a library. The firmware, an Arduino sketch, is
-- compiled against a hardware abstraction layer, native/hal, and a C ABI, native/wrapper, starts
-- it on a thread of its own, feeds its serial port, and calls the host application back.
--
-- The parts, and the files that model them:
--   native/hal/include/zimodem_hal/arduino/WString.h     WString, with WString/Search, Cut, Compare,
--                                                        Replace and Numbers
--   native/hal/include/zimodem_hal/arduino/IPAddress.h   IpAddress, with IpAddress/Words
--   native/hal/include/zimodem_hal/arduino/Arduino.h     Arduino (itoa), with Arduino/Itoa, Decimal,
--                                                        Random, ToString and Wiring (clock and pins)
--   native/hal/include/zimodem_hal/arduino/ESP.h         Esp
--   native/hal/src/timing.cpp, log.cpp                   Timing, Log
--   native/hal/include/zimodem_hal/arduino/Print.h       Print, with Print/Written
--   native/hal/src/serial_port.cpp                       SerialPort, with SerialPort/Queue and Line
--   native/hal/include/zimodem_hal/arduino/HardwareSerial.h  SerialPort/Line (begin), ReadBytes,
--                                                        Hardware (the object of the sketch) and
--                                                        Printing (Print over the port)
--   native/hal/src/pins.cpp                              Pins, with Pins/Signals
--   native/hal/src/net.cpp                               Net/Os, the operating system's calls, and
--                                                        over them Net/Tcp, Net/Listener, Net/Udp
--   native/hal/include/zimodem_hal/arduino/WiFiClient.h  WifiClient, over a store of sockets
--   native/hal/include/zimodem_hal/arduino/WiFiServer.h, WiFiUdp.h, WiFiClientSecure.h, WiFi.h
--                                                        WifiServer, WifiUdp, WifiClientSecure, Wifi
--   the three kinds of sockets together                  Sockets (their steps) and Sockets/Separate,
--                                                        over Net/Ownership, Taking and Keeping
--   native/hal/src/fs_root.cpp, arduino_fs.cpp, and native/hal/include/zimodem_hal/arduino/FS.h
--                                                        Fs (the C library as a parameter), Fs/Root,
--                                                        Fs/Spiffs, Fs/File, and over Fs/Laws the
--                                                        theorems in Fs/Reading and RoundTrip
--   native/hal/src/tls.cpp                               Tls, with Tls/Session (connect), Tls/Plain
--                                                        (the reading side), Tls/Incoming (the BIO
--                                                        functions) and Tls/Sending
--   native/wrapper/src/zimodem_host.cpp                  Host/LineConfig, Host/Process (the state and
--                                                        the closures), Host/Abi (the exported
--                                                        functions), Host/Worker (the thread, and
--                                                        destroy), Host/Calls (histories of calls),
--                                                        Host/Bytes (what they move), Host/Again
--                                                        (a second instance) and Host/Wake (the
--                                                        host's answer to a wake-up); the same at
--                                                        the grain of the locks in Host/Threads
--                                                        (Reentry: set_pin inside of a callback)
--   managed/ZiModem.Net/ZiModemDevice.cs                 Managed (the objects and their methods over
--                                                        Host/Abi), Managed/Draining (the events),
--                                                        Held, Methods and Laws (its contract), Again,
--                                                        and Lines (SignalChanged)
-- Base holds the shared names: Boolean tests on numbers and bytes, lists measured by native
-- numbers, wrapped 32-bit ints, and decimal and other numerals.
--
-- How they interact: Host/Process holds a Serial and a Pins whose callbacks are numbers of
-- instances, since the closures that zimodem_host_create registers capture their instance. An
-- operation of SerialPort or Pins returns the invocations of callbacks that it makes, and
-- Host/Process delivers them to the instance that they name: to one that is freed the delivery is
-- `dangling`, and to one whose mutex the same thread holds it is `deadlock`. Tls stands on Net/Tcp
-- and hands its bio functions to mbedTLS.
--
-- Conventions: a function is named as in the source, in small letters with underlines; an operation
-- returns its result and the state behind it, in that order. A byte is a natural number, where it
-- matters below 256. An int of 32 bits is wrapped with % 2 ^ 32 where the source converts to it. A
-- lock is not modelled beyond callback_mutex: each operation of the HAL is one step, as its mutex
-- makes it. Steps of different threads are interleaved as a sequence; for readBytes, the sequence
-- says what the other thread feeds, and how far the clock goes, before each poll. Host/Process
-- makes the callbacks of an operation in its step, so that the mutex is free between the steps of
-- Host/Calls; a second lock by its own thread is in Host/Threads. There the callbacks are not in
-- the step: a thread that has left the HAL's mutex owes the call, then holds callback_mutex, then
-- is back, and each is a step of its own between which the other threads run; a careful host is one
-- that calls set_callbacks, start and set_pin only while no destroy runs, and destroy only while
-- its other threads are out of the library, and that makes no call of set_pin or set_callbacks
-- inside of a callback that runs under callback_mutex. Another host may make these two, and its
-- thread is then at a mutex that it holds. Calls of start, create and destroy inside of a callback
-- are not steps.
--
-- Parameters: the socket calls (Os, with the laws DescriptorLaws and StreamLaws), mbedTLS (Mbedtls,
-- with PlainLaws and SendLaws, which speak of a session with the BIO functions of tls.cpp; those of
-- mbedtls_ssl_write ask for the same arguments again behind a WANT), the C streams and
-- std::filesystem under SPIFFS (Stdio, with the StreamLaws of Fs/Laws),
-- std::filesystem::create_directories and `new` in create, which enter as their outcomes, the clock
-- and std::rand, the text that vsnprintf makes, and the sketch's setup() and loop(), which enter as
-- the ways in which they end and as what they do to the HAL. Net/Toy, Tls/Tests and Fs/Toy have
-- instances of the laws.
--
-- Fuel: the loop of TlsSocket::write is on fuel, the length of the buffer and the number of waits
-- that the deadline leaves, and its theorem gives a result for every buffer that the session may be
-- called with. String::replace is on fuel, one more than the length of the string, and its theorem
-- gives the result. The digits of itoa are taken with one more than the magnitude as fuel, which is
-- more than it has digits, and the theorem on the value shows that none is missing. The handshake
-- loop of TlsSocket::connect recurses on the waits that the deadline leaves. File::readString is on
-- fuel, and one more than the bytes not yet read is enough. The loop of readBytes takes a list with
-- one moment for each poll, and its theorem says how many are enough. The other loops recurse on a
-- list. The loop of the managed wrapper over the native queue is on fuel, one more than the bytes
-- that wait, and its theorem gives all of them. The join in destroy takes the outcomes of the
-- thread's calls from now on as a list, and two of them are enough.
--
-- Not modelled: dtostrf, which formats a double; Stream, which has no code; the vendored sketch,
-- which is another repository's and which zimodem_core.cpp includes; how the managed wrapper finds
-- and loads the native library; the tools and the tests.
pub mod Arduino
pub mod Base
pub mod Esp
pub mod Fs
pub mod Host
pub mod IpAddress
pub mod Log
pub mod Managed
pub mod Net
pub mod Pins
pub mod Print
pub mod SerialPort
pub mod Sockets
pub mod Timing
pub mod Tls
pub mod WString
pub mod Wifi
pub mod WifiClient
pub mod WifiClientSecure
pub mod WifiServer
pub mod WifiUdp
