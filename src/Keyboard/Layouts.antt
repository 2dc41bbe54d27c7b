-- ===== src/Keyboard/Layouts.antt =====
-- The vendors' layouts of the Fn keys, of `ReadFnKeyLayout` in ApplePS2Keyboard.cpp.
pub mod Distinct
use apple_ps2smart_touch_pad.Common.{ℕ, Bool, if◌then◌else◌}
use apple_ps2smart_touch_pad.Keyboard.State.{FnKeys}
use apple_ps2smart_touch_pad.Keyboard.Maps.{deadkey}

unfoldable pub layout_none : FnKeys → FnKeys
layout_none f = record f {
  fn_keys_vendor_layout = 0;
  system_sleep = deadkey;
  misson_ctl_fun = deadkey;
  launchpad_fun = deadkey;
  disp_sleep = deadkey;
  video_mirror = deadkey;
  touchpad = deadkey;
  bright_ness_down = deadkey;
  bright_ness_up = deadkey;
  vol_mute = deadkey;
  vol_down = deadkey;
  vol_up = deadkey;
  media_prev = deadkey;
  media_play = deadkey;
  media_next = deadkey;
}

unfoldable pub layout_asus : Bool → FnKeys → FnKeys
layout_asus asus f = record f {
  fn_keys_vendor_layout = 1;
  fn_keys_mode_num = 3;
  system_sleep = 0x3b;
  disp_sleep = 0x41;
  video_mirror = 0x42;
  touchpad = 0x43;
  bright_ness_down = 0x3f;
  bright_ness_up = 0x40;
  vol_mute = 0x44;
  vol_down = 0x57;
  vol_up = 0x58;
  media_prev = 0x4b;
  media_play = 0x50;
  media_next = 0x4d;
  launchpad_fun = if asus then deadkey else 0x3e;
  kbrd_brightness_up = if asus then 0x3e else f.kbrd_brightness_up;
  misson_ctl_fun = if asus then deadkey else 0x3d;
  kbrd_brightness_down = if asus then 0x3d else f.kbrd_brightness_down;
}

unfoldable pub layout_dell : FnKeys → FnKeys
layout_dell f = record f {
  fn_keys_vendor_layout = 2;
  fn_keys_mode_num = 3;
  system_sleep = 0x4b;
  misson_ctl_fun = 0x40;
  launchpad_fun = 0x41;
  disp_sleep = 0x4d;
  video_mirror = 0x3b;
  touchpad = 0x3d;
  bright_ness_down = 0x3e;
  bright_ness_up = 0x3f;
  vol_mute = 0x50;
  vol_down = 0x57;
  vol_up = 0x58;
  media_prev = 0x42;
  media_play = 0x43;
  media_next = 0x44;
}

unfoldable pub layout_acer : FnKeys → FnKeys
layout_acer f = record f {
  fn_keys_vendor_layout = 3;
  fn_keys_mode_num = 3;
  system_sleep = 0x3e;
  misson_ctl_fun = 0x3c;
  launchpad_fun = 0x3d;
  disp_sleep = 0x40;
  video_mirror = 0x3f;
  touchpad = 0x41;
  bright_ness_down = 0x4b;
  bright_ness_up = 0x4d;
  vol_mute = 0x42;
  vol_down = 0x50;
  vol_up = 0x48;
  media_prev = 0x44;
  media_play = 0x57;
  media_next = 0x58;
}

unfoldable pub layout_samsung : FnKeys → FnKeys
layout_samsung f = record f {
  fn_keys_vendor_layout = 4;
  fn_keys_mode_num = 3;
  system_sleep = 0x57;
  misson_ctl_fun = 0x43;
  launchpad_fun = 0x44;
  disp_sleep = 0x3b;
  video_mirror = 0x3e;
  touchpad = 0x3f;
  bright_ness_down = 0x3c;
  bright_ness_up = 0x3d;
  vol_mute = 0x40;
  vol_down = 0x41;
  vol_up = 0x42;
  media_prev = 0x4b;
  media_play = 0x50;
  media_next = 0x4d;
}

unfoldable pub layout_msi : FnKeys → FnKeys
layout_msi f = record f {
  fn_keys_vendor_layout = 5;
  fn_keys_mode_num = 3;
  system_sleep = 0x58;
  misson_ctl_fun = 0x41;
  launchpad_fun = 0x57;
  disp_sleep = 0x3e;
  video_mirror = 0x3c;
  touchpad = 0x3d;
  bright_ness_down = 0x50;
  bright_ness_up = 0x48;
  vol_mute = 0x52;
  vol_down = 0x4b;
  vol_up = 0x4d;
  media_prev = 0x4b;
  media_play = 0x50;
  media_next = 0x4d;
}

unfoldable pub layout_gigabyte : FnKeys → FnKeys
layout_gigabyte f = record f {
  fn_keys_vendor_layout = 6;
  fn_keys_mode_num = 3;
  misson_ctl_fun = 0x58;
  launchpad_fun = 0x57;
  system_sleep = 0x3b;
  video_mirror = 0x3f;
  touchpad = 0x40;
  disp_sleep = 0x44;
  bright_ness_down = 0x3d;
  bright_ness_up = 0x3e;
  vol_mute = 0x41;
  vol_down = 0x42;
  vol_up = 0x43;
  media_prev = 0x4b;
  media_play = 0x50;
  media_next = 0x4d;
}

unfoldable pub layout_lenovo : FnKeys → FnKeys
layout_lenovo f = record f {
  fn_keys_vendor_layout = 7;
  fn_keys_mode_num = 3;
  misson_ctl_fun = 0x42;
  launchpad_fun = 0x3e;
  system_sleep = 0x41;
  video_mirror = 0x44;
  touchpad = 0x40;
  disp_sleep = 0x43;
  bright_ness_down = 0x57;
  bright_ness_up = 0x58;
  vol_mute = 0x3b;
  vol_down = 0x3c;
  vol_up = 0x3d;
  media_prev = 0x4b;
  media_play = 0x50;
  media_next = 0x4d;
}

unfoldable pub layout_hp : FnKeys → FnKeys
layout_hp f = record f {
  fn_keys_vendor_layout = 8;
  fn_keys_mode_num = 3;
  misson_ctl_fun = 0x4b;
  launchpad_fun = 0x4d;
  system_sleep = 0x3b;
  video_mirror = 0x3e;
  touchpad = 0x50;
  disp_sleep = 0x3f;
  bright_ness_down = 0x3c;
  bright_ness_up = 0x3d;
  vol_mute = 0x57;
  vol_down = 0x43;
  vol_up = 0x44;
  media_prev = 0x40;
  media_play = 0x41;
  media_next = 0x42;
}

unfoldable pub layout_lg : FnKeys → FnKeys
layout_lg f = record f {
  fn_keys_vendor_layout = 9;
  fn_keys_mode_num = 3;
  misson_ctl_fun = 0x42;
  launchpad_fun = 0x44;
  system_sleep = 0x3e;
  video_mirror = 0x41;
  touchpad = 0x3f;
  disp_sleep = 0x40;
  bright_ness_down = 0x3c;
  bright_ness_up = 0x3d;
  vol_mute = 0x43;
  vol_down = 0x57;
  vol_up = 0x58;
  media_prev = 0x4b;
  media_play = 0x50;
  media_next = 0x4d;
}
