-- ===== src/Lib.antt =====
-- ApplePS2SmartTouchPad: a verification library for the drivers of a PS/2 controller, its keyboard
-- and its touchpad.
--
-- The program has three drivers. ApplePS2Controller (ApplePS2Controller/ApplePS2Controller.cpp) owns
-- the two ports of the controller; the keyboard driver (ApplePS2Keyboard) and the touchpad driver
-- (ApplePS2SmartTouchPad) reach it through nubs, submit requests, which are lists of port commands,
-- and are handed the bytes of their streams by interrupt and told of power changes.
--
-- Files:
--   Common: names of the libraries that all parts use, Boolean tests, lists over the native numbers,
--     bytes and their masks.
--   Controller/State: the members of the class ApplePS2Controller, as the record Controller.
--   Controller/Port: writeDataPort, writeCommandPort, dispatchDriverInterrupt.
--   Controller/Read: readDataPort in its two versions. Its children hold the arrivals at the port as
--     one sequence (Arrivals), the result as a function of that sequence (Reorder), the laws of the
--     loops (Laws), what follows for callers (Recovery), and what a read leaves alone (Frame).
--   Controller/Request: PS2Request, processRequest, processRequestQueue, submitRequest and
--     submitRequestAndBlockGated; Request/Commands the commands and the switch over them.
--   Controller/Escape: interruptHandlerKeyboard, doEscape, the queue of keys, interruptOccurred.
--   Controller/Mux: resetPS2Controller, detectMuxModeSupport, setMuxMode.
--   Controller/Power: setPowerStateGated, dispatchDriverPowerControl, the installation of clients.
--   Controller/Notifications: installPS2Notification, dispatchPS2Notification, message.
--   Interface: ApplePS2SmartTouchPad/PS2Interface.cpp; Interface/Device what it works on; Slices the
--     sliced commands, Memory the uses of freed requests, Sent, Submitted and Settled what requests
--     leave in the log of the ports.
--   Touchpad: the members of the class ApplePS2SmartTouchpad that the modelled methods use.
--   Touchpad/Elan: Elantech_setup_touchpad, with Access (Elantech_write_reg, Elantech_read_reg), Mode
--     (Elantech_set_absolute_mode), Versions (Elantech_set_properties) and Ranges
--     (Elantech_set_range), all of ApplePS2SmartTouchPad/ApplePS2SmartTouchPad.cpp.
--   Touchpad/Synaptics: Synaptics_setup_touchpad and the bit tests of Synaptics.h, with the fields of
--     an answer (Fields), what is sent to set a mode (Modes) and the set-up as a whole (Setup).
--   Touchpad/Connect: Detect_touchpad, Reconnect_touchpad, Enable_touchpad and the FocalTech_ and
--     Synaptics_ methods that they call.
--   Touchpad/Packets: interruptOccurred of the touchpad, with the checks of constant bits
--     (Signatures) and of the surroundings (Gates).
--   Touchpad/Features: the members of SmartTouchpadFeatures.h that notifications and timers change.
--   Touchpad/Notified: receiveKeyboardNotifications. Its children hold what all cases keep (Runs), the
--     keys that toggle features (Twice), the guard on typing (Typing) and the direction of scrolling
--     (Direction).
--   Touchpad/Timers: ProcessFeaturesToggle, Release_ButtonsAndDrag, ControlfKeybrdBackLight; its
--     children hold runs of notifications and timers (Happenings) and what they keep (Turned, Kept,
--     Reported, Buttons). Touchpad/Swipes: Dispatch_edgeSwipe, Open_NC, ResetPointerToMiddle.
--   Touchpad/Positions: the state that the decoding of packets works on; ElanV2v3
--     (Process_absolute_events_ELANv2v3), ElanV4 and ElanV4/Events
--     (Process_absolute_events_ELANv4AndFocalTech), Fields and Tracking what the packets tell.
--   Touchpad/Positions/Synaptics: Synaptics_report_absolute and
--     Process_passthrough_events_Synaptics, of which Placing, Events and Scroll hold the parts behind
--     the decoding; Hangs, Fields and Bounds hold what is shown of them.
--   Touchpad/Positions/Changes: Process_fingers_change, on the fingers and the members that it resets;
--     its child Starts holds where the fingers start behind it.
--   Touchpad/Buttons: Process_Physical_Buttons, on the features and the members of _button; its
--     child Released holds what is down and what comes up.
--   Drivers: the notifications of the touchpad driver and of ACPI as the keyboard driver receives
--     them, through the controller; the switcher of applications (Switcher, Closing), and what the keyboard driver sends to the touchpad driver (Typing).
--   Keyboard: ApplePS2Keyboard/ApplePS2Keyboard.cpp, with ApplePS2Keyboard.h and ApplePS2ToADBMap.h.
--     State has the members of the class ApplePS2Keyboard, Vector the bit list of the keys that are
--     down, Maps the tables, Notices the notifications that the two drivers exchange.
--   Keyboard/Setup: init, deviceType; Preferences and Config the reading of the property lists,
--     Layouts the vendors' layouts of Fn keys; Lights the requests to the keyboard and power.
--   Keyboard/Scan: interruptOccurred and dispatchKeyboardEventWithScancode, whose switches are in
--     Codes (scan codes to key codes), Pressed (keys with a state of their own) and ModifierKeys
--     (the notifications about modifiers); Special has the handlers that it calls.
--   Keyboard/Functions: receiveTouchpadNotifications and processFnKeys, with Gestures (the shortcuts
--     that stand for gestures), Combinations (ProcessKeyCombinations) and Backlight.
--   Tests: runs at concrete inputs.
--
-- How the code is modelled: a method is a function from the state to its result and the new state.
-- The hardware is an input: a list of what the coming reads of the status port return and one for
-- the data port; both read as 0 once used up, which is a controller that stays silent. All writes to
-- ports, all calls of the clients' handlers and all power messages are kept in logs, so that order
-- can be stated. A client's handler is not run where the controller calls it: what the power handlers
-- write to the ports in the course of a power change comes behind what the controller writes. A keyboard interrupt runs between calls, not inside a read. A request is a value,
-- with a flag for freed memory; writes to a freed request, its submission and its release are counted,
-- and the run goes on as if the memory still held what it held; the calls of
-- freeRequest are counted too, reads of a freed request are not. An allocation succeeds.
--
-- Loops and bounds: the waits of readDataPort count down from the source's 10000 and consume the list
-- of statuses, so that they end on every input. The retry loops count down from the source's limits.
-- setCommandByte and the two loops over the scrolling of Synaptics_report_absolute have no bound in
-- the source; they have fuel here, and a run that needs more is none, which is what Touchpad/Connect
-- and Touchpad/Packets hand on. What fuel those two loops need, and where none is enough, is stated
-- among the results. The gesture code behind the Process_ methods is a parameter of Touchpad/Packets: a function,
-- which returns on every packet, so that the loops over the scrolling are not in its handler.
--
-- The keyboard driver keeps its calls of IOKit, of ACPI and of the touchpad driver in one log, its
-- requests among them as they are submitted asynchronously. What property lists, ACPI and the clock
-- answer is a record of parameters, and the clock stands still while a handler runs. Null strings
-- and writes behind a buffer are counted as faults. Names and shortcuts are ASCII codes.
--
-- The touchpad driver's calls out of its handlers of notifications and timers are one log too. Its
-- scroll factor is a float: the arithmetic is a parameter, of which only the behaviour of signs is
-- relied on. The methods for gestures and buttons are a parameter of Touchpad/Positions, which may
-- change all of its state; a finger that is not there counts as a fault. Process_Physical_Buttons and
-- Process_fingers_change, which are among these methods, are modelled by themselves, each on a record
-- with the members that it reads and changes.
--
-- Not modelled: the decoding of packets of the trackpoint and of version 1, the gestures themselves,
-- the reading of the touchpad's property lists, the timers that enhance pointer and scrolling, locks,
-- the logs, and the set-up with IOKit. They are heuristics over many more members of the driver, or glue.
pub mod Common
pub mod Controller
pub mod Interface
pub mod Touchpad
pub mod Keyboard
pub mod Drivers
pub mod Tests
