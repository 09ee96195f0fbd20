-- ===== src/Lib.antt =====
-- hardware_simulator: the native half of a Flutter plugin that simulates input devices.
--
-- A remote controller's calls reach the plugin as method calls. On Linux the plugin turns them into
-- events of virtual devices (uinput, through inputtino and libevdev), captures the local pointer for the
-- relative mode, and commits text through IBus. On Windows it offers input to a desktop service through
-- a named pipe and then gives it to Windows itself, makes virtual gamepads through ViGEm, and virtual
-- displays through the Parsec driver.
--
-- The files, and the code that each models:
--   Prelude           shared names, the tests, lists, and the integers over native numbers
--   Linux/Uinput      the events that a device is given (linux/linux_keyboard.h)
--   Linux/Keyboard    LinuxKeyboard: the keys held, send, clear and the synchronisation
--                     (linux/linux_keyboard.h)
--   Linux/Wheel       LinuxMouse: both scroll calls (linux/linux_mouse.cc)
--   Linux/Values      the readers of arguments and the responses (linux/hardware_simulator_plugin.cc)
--   Linux/Monitors    get_monitors and get_root_bounds (the same file)
--   Linux/Mouse       the mouse handlers and the globals that they share (the same file)
--   Linux/Integral    doubles that are whole numbers, for tests
--   Linux/Capture     linux_pointer_capture: a state machine over X11 and Wayland
--                     (linux/linux_pointer_capture.cc)
--   Linux/Focus       LinuxEditFocus: the search for the focused control (linux/linux_edit_focus.cc)
--   Linux/Immersive   LinuxImmersiveInput: the grab, the inhibitor and the guard against reentry
--                     (linux/linux_immersive_input.cc)
--   Linux/TextInput   linux_text_input: the IBus backend, its transaction and its waiters
--                     (linux/linux_text_input.cc)
--   Linux/Plugin      the key handler and clear_all_pressed_events (linux/hardware_simulator_plugin.cc)
--   Windows/Blocker   SmartKeyboardBlocker: the hook, its key states, the window in front
--                     (windows/SmartKeyboardBlocker.h and .cpp)
--   Windows/Gamepad   RumbleCallbackRegistry and GameControllerManager
--                     (windows/rumble_callback_registry.h, windows/gamecontroller_manager.cc)
--   Windows/Service   DesktopServiceInputClient: the queue and its thread, the messages and the control
--                     requests (windows/desktop_service_input_client.h and .cpp)
--   Windows/Pointer   the list of monitors and the coordinates on them
--                     (windows/hardware_simulator_plugin.cpp, windows/pointer_coordinates.h)
--   Windows/Injection the way of an event to the service or to Windows, with the retry that joins the
--                     input desktop; keys, buttons, wheels and pointers as Windows takes them
--                     (windows/hardware_simulator_plugin.cpp)
--   Windows/Tracking  the globals that say what is held down: keys, touch slots and the pen, the thread
--                     that repeats them, and clearAllPressedEvents (the same file)
--   Windows/CursorLock  the locked cursor: the clip, the raw input and the cursor's display (the same file)
--   Windows/Editing   WindowsEditingEventMonitor: the match of elements, the inspection and the worker
--                     (windows/windows_editing_event_monitor.cc), and the plugin's queue of decisions
--                     (windows/hardware_simulator_plugin.cpp)
--   Windows/Displays  VirtualDisplayControl and VirtualDisplay::SetOrientation: the list of displays,
--                     the one display and its restoration, the console's session, the configurations
--                     (windows/virtual_display_control.cc, windows/virtual_display.cc)
--
-- The mouse handlers call the wheel and the monitors, and Linux/Plugin the keyboard and the mouse. On
-- Windows, Tracking takes the place of an event from Pointer and gives it to Injection, which offers it
-- to the client of Service; the worker of Editing hands its decisions to the plugin's queue, which tells
-- them on the window's thread. The rest of the components share no state.
--
-- A component's state is a record with the source's fields, and an operation a function from a state and
-- the answers of the outside (an error code, a reply, a handle) to a state and a result. What a component
-- asks of a device is a log in its state. Signals, replies and timers are events; a run is a list of
-- them in any order. A thread goes in steps between two releases of its mutex. What has no defined
-- behaviour in the source, such as a step on from an erased entry, is `none`.
--
-- Doubles are a parameter with the laws that a theorem names, of finite ones where the code tests
-- for them; whole numbers with one that is no number are an instance. inputtino's mouse is two
-- devices, and a button goes to that of the last motion; the log of its calls says what is down on
-- each. The 64-bit counters of the text input wrap; the cookies of the registry stop at the largest
-- uintptr_t. Two loops run on fuel: the blocker's walk to a window's ancestors, with the window's
-- depth, which the theorem on it shows to be enough, and the retry of Injection, which has no bound
-- in the source, with `patience` rounds; a theorem says how many are enough. The other loops are
-- structural; `close` takes the answers to the two steps that its thread can still need, and the
-- theorem on it shows that they are enough.
--
-- Not modelled: the texts of error messages and the log lines; the build of the service client with the
-- in-process dispatcher; the overlapped calls of Windows below a write or a read; the parse of a
-- gamepad's report; callbacks that call back into the pointer capture; the Windows table of methods,
-- the enumeration of its displays with the modes for several, its cursor monitor and windows; the set-up
-- of COM and the detached end of the editing worker; the Linux table of methods, the timer of the edit focus, and the set-up; and the
-- halves in other languages.
pub mod Prelude
pub mod Linux
pub mod Windows
