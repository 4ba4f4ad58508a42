-- ===== src/Lib.antt =====
-- The OSKey firmware: a model of the parts of the C code that decide about secrets, and of the device
-- threads and transports around them, with proofs about them.
--
-- The firmware is a hardware wallet on Zephyr. The transports (UART, Bluetooth, USB) and the display
-- put commands in the queues of the message bus; the core thread takes them one at a time, runs each
-- on the wallet (in Rust), and routes the effects that come back to the transports, the queues of
-- results and the confirmation channel, where a button can approve. The wallet's seed lives in the
-- storage, or, where the board has one, in an NXP secure element behind a PIN. A new seed can be mixed
-- with what the entropy collector gathers from the touch screen, the motion sensor, the camera and the
-- microphone; the last two also serve the QR scanner and USB audio. A web portal configures the Wi-Fi
-- and takes firmware images, and a memory card is listed page by page.
--
-- The files, and the code that each is about:
--   Prelude      tests on numbers, lists over the native numbers and their windows, error codes, bytes
--   Entropy      src/entropy/entropy.c: the collector. Source has the table of sources and the masks;
--                Smf, the state machine framework that Zephyr gives; Machine, the context and the
--                entry and exit actions; Dispatch, the run actions and entropy_dispatch; Api, the
--                public functions; Client, the part of these that the drivers use. The other modules
--                below it are proofs.
--   Nxp          src/security/nxp: Device is device.c, Store is store.c with nxp_pin_credential of
--                host_crypto_psa.c; Sent, Unlocking, Closing and Calls are proofs.
--   Storage      src/storage.c: Flash with CONFIG_OSKEY_STORAGE, Ram without it; Laws has the proofs.
--   Bus          src/bus.c, with the types of src/bus.h and src/bindings.h: Payload and Queues;
--                Ownership has the proofs.
--   Core         src/core.c: Effects; Confirming has the proofs.
--   Fido         src/usb/fido2.c: Request; Requests has the proofs.
--   Bluetooth    src/bluetooth/bluetooth.c: Transport; Sessions, Stale, Sending and
--                Insecure are proofs.
--   Uart         src/uart.c; Uart.Stream has the proofs.
--   Button       src/gpio.c; Button.Approvals has the proofs.
--   Imu          src/imu/imu.c, with the types of drivers/include/oskey/imu_source.h: Acquisition;
--                History, Turns and Failures are proofs.
--   Microphone   src/audio/microphone.c: Ring has the buffer and the sizes, Capture the thread, USB and
--                the header's functions; Frames, InStep and Runs are proofs.
--   Camera       Capture is src/camera/camera.c, Scanner is src/camera/qr_scanner.c, Decoder is
--                src/camera/qr_decoder.c without its thread; Stuck, Results and Cropping are proofs.
--   Portal       src/net/wifi_portal.c: Endpoints has the three forms, Requests post_handler, Firmware
--                the upload; Guarded, Forms and Uploads are proofs.
--   Media        src/media.c: Card; Pages has the proofs.
--   Audio        src/audio/audio.c, with the microphone of Microphone; Audio.Pausing has the proofs.
-- A module Tests below each has runs at concrete inputs.
--
-- A function of the code is a function of its state before, to its result and its state after; a
-- failure is an error code, or `none` where the code has one error only. A thread is a function for a
-- turn of its loop, and what interleaves is a step relation: the turns, the callbacks and the calls.
-- Functions of the kernel, of the crypto library, of the drivers and of the vendor are fields of a
-- record that the model takes as a parameter: Entropy.Machine.Env, Entropy.Smf.Smf,
-- Nxp.Device.Vendor, Nxp.Store.Crypto, Storage.Flash.Zms, Bus.Payload.Kernel, Core.Effects.Ports,
-- Bluetooth.Transport.Stack, Uart.Submit, Imu.Acquisition.Ports, Microphone.Ring.RingBuf (with its
-- documented laws in IsQueue), Microphone.Capture.Ports, Camera.Capture.Video, Camera.Scanner.Optics,
-- Portal.Endpoints.Services and Portal.Firmware.Flash; Fido.Request.Arrivals and Media.Card.Directory
-- are what they answer while a call runs. They may answer anything, unless a theorem names a law.
-- Entropy.Client.Collector is the interface between the collector and the drivers, and collector_of
-- the collector behind it.
-- A ghost is a field that the code does not have and no function reads: the hooks called
-- (Entropy), the commands sent (Nxp), the payloads allocated and released (Bus, Fido), the requests
-- cancelled (Fido), the bytes accepted (Uart), the numbers submitted (Button), the references held and
-- the bytes submitted and notified (Bluetooth), the samples processed and the failures reported (Imu),
-- the USB buffers in use (Microphone), the states and events published and the codes reported
-- (Camera), and whether the writer succeeded, with the upgrades requested (Portal).
--
-- Bounds. An entry action may call a transition again: the depth of the model is fixed, and a theorem
-- shows that it is enough. The loops over the core's effects and over rejected confirmations take
-- fuel, since the core alone decides whether they end; no theorem is about their ends. Sending over Bluetooth takes fuel for each byte, which a theorem shows to
-- be enough. Masks of sources are records of their five bits.
--
-- Not modelled: mutual exclusion (every function, and every turn of a thread, is one step of its
-- component), time but for the stamps of the collector and the preview of the scanner, logging, the
-- camera thread of the collector and its capabilities, the ciphers of the vendor's session
-- with their contexts (the closing of the device calls their reset as a parameter), the fusion
-- of the motion samples, the thread of the QR decoder, the texts shown for FIDO2, USB, the rest of the network, the
-- playing of the beep, the display, the start-up, the register-level drivers and the wallet in Rust.
pub mod Prelude
pub mod Audio
pub mod Bluetooth
pub mod Bus
pub mod Button
pub mod Camera
pub mod Core
pub mod Entropy
pub mod Fido
pub mod Imu
pub mod Media
pub mod Microphone
pub mod Nxp
pub mod Portal
pub mod Storage
pub mod Uart
