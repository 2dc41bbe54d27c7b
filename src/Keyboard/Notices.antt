-- ===== src/Keyboard/Notices.antt =====
-- The notifications that the two drivers send each other, of ApplePS2Device.h.
use apple_ps2smart_touch_pad.Common.{ℕ}

abbrev pub shift_key : ℕ
shift_key = 0

abbrev pub gesture_app_switch : ℕ
gesture_app_switch = 1

abbrev pub gesture_app_close : ℕ
gesture_app_close = 2

abbrev pub gesture_launchpad : ℕ
gesture_launchpad = 3

abbrev pub gesture_mission_control : ℕ
gesture_mission_control = 4

abbrev pub gesture_dashboard : ℕ
gesture_dashboard = 5

abbrev pub gesture_desktop_switch_left : ℕ
gesture_desktop_switch_left = 6

abbrev pub gesture_desktop_switch_right : ℕ
gesture_desktop_switch_right = 7

abbrev pub gesture_app_windows : ℕ
gesture_app_windows = 8

abbrev pub gesture_minimize : ℕ
gesture_minimize = 9

abbrev pub gesture_full_screen : ℕ
gesture_full_screen = 10

abbrev pub gesture_backward : ℕ
gesture_backward = 11

abbrev pub gesture_forward : ℕ
gesture_forward = 12

abbrev pub gesture_desktop : ℕ
gesture_desktop = 13

abbrev pub gesture_nc_shortcut : ℕ
gesture_nc_shortcut = 14

abbrev pub gesture_get_info : ℕ
gesture_get_info = 15

abbrev pub gesture_toggle_dock : ℕ
gesture_toggle_dock = 16

abbrev pub gesture_zoom_reset : ℕ
gesture_zoom_reset = 18

abbrev pub gesture_finder : ℕ
gesture_finder = 19

abbrev pub gesture_force_quit : ℕ
gesture_force_quit = 20

abbrev pub ext_fun_f13 : ℕ
ext_fun_f13 = 21

abbrev pub ext_fun_f24 : ℕ
ext_fun_f24 = 32

abbrev pub enable_touchpad : ℕ
enable_touchpad = 36

abbrev pub disable_touchpad : ℕ
disable_touchpad = 37

abbrev pub accidental_input : ℕ
accidental_input = 38

abbrev pub do_context_menu : ℕ
do_context_menu = 39

abbrev pub zoom_plus : ℕ
zoom_plus = 40

abbrev pub zoom_minus : ℕ
zoom_minus = 41

abbrev pub zoom_reset : ℕ
zoom_reset = 42

abbrev pub rotate_left : ℕ
rotate_left = 43

abbrev pub rotate_right : ℕ
rotate_right = 44

abbrev pub release_cmd_key : ℕ
release_cmd_key = 45

abbrev pub scroll_lock_auto : ℕ
scroll_lock_auto = 46

abbrev pub scroll_lock_inertia : ℕ
scroll_lock_inertia = 47

abbrev pub scroll_lock_continuous : ℕ
scroll_lock_continuous = 48

abbrev pub edge_scroll : ℕ
edge_scroll = 49

abbrev pub gestures_1f_swipes : ℕ
gestures_1f_swipes = 50

abbrev pub gestures_3f_swipes : ℕ
gestures_3f_swipes = 51

abbrev pub gestures_4f_swipes : ℕ
gestures_4f_swipes = 52

abbrev pub gestures_rotate : ℕ
gestures_rotate = 53

abbrev pub gestures_zoom : ℕ
gestures_zoom = 54

abbrev pub gestures_double_taps : ℕ
gestures_double_taps = 55

abbrev pub esc : ℕ
esc = 57

abbrev pub alt_funtion_on : ℕ
alt_funtion_on = 58

abbrev pub alt_funtion_off : ℕ
alt_funtion_off = 59

abbrev pub cntrl_feature_on : ℕ
cntrl_feature_on = 60

abbrev pub cntrl_feature_off : ℕ
cntrl_feature_off = 61

abbrev pub cntrl_key_down : ℕ
cntrl_key_down = 62

abbrev pub cntrl_key_up : ℕ
cntrl_key_up = 63

abbrev pub cmd_key_down : ℕ
cmd_key_down = 64

abbrev pub cmd_key_up : ℕ
cmd_key_up = 65

abbrev pub init_keyboard : ℕ
init_keyboard = 66

abbrev pub enable_asus_kbacklight : ℕ
enable_asus_kbacklight = 67

abbrev pub enable_asus_kbacklight16_levels : ℕ
enable_asus_kbacklight16_levels = 68

abbrev pub restore_touchpad : ℕ
restore_touchpad = 69

abbrev pub keybrd_back_light_off : ℕ
keybrd_back_light_off = 70

abbrev pub keybrd_back_light_on : ℕ
keybrd_back_light_on = 71

abbrev pub keybrd_back_light_toggle_on : ℕ
keybrd_back_light_toggle_on = 72

abbrev pub keybrd_back_light_toggle_off : ℕ
keybrd_back_light_toggle_off = 73

abbrev pub show_touch_pressure_width : ℕ
show_touch_pressure_width = 74

abbrev pub brightness_down : ℕ
brightness_down = 75

abbrev pub brightness_up : ℕ
brightness_up = 76

abbrev pub osx_version_notify : ℕ
osx_version_notify = 77
