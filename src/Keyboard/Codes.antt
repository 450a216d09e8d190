-- ===== src/Keyboard/Codes.antt =====
-- kernel/keyboard.h: the key codes with their values, and the state bits of the modifier and lock keys.
use airix.Prelude.{ℕ, List, [], ◌∷◌}

-- `enum key_code`.
pub data KeyCode : Type 0 where
  key_a key_b key_c key_d key_e key_f key_g key_h key_i key_j key_k key_l key_m key_n key_o :
      KeyCode
  key_p key_q key_r key_s key_t key_u key_v key_w key_x key_y key_z key_0 key_1 key_2 key_3 :
      KeyCode
  key_4 key_5 key_6 key_7 key_8 key_9 key_grave key_minus key_equal key_backslash key_space :
      KeyCode
  key_left_bracket key_right_bracket key_semicolon key_quote key_comma key_dot key_slash : KeyCode
  key_backspace key_enter key_tab key_esc key_fn1 key_fn2 key_fn3 key_fn4 key_fn5 key_fn6 : KeyCode
  key_fn7 key_fn8 key_fn9 key_fn10 key_fn11 key_fn12 key_caps_lock key_lshift key_lctrl : KeyCode
  key_lwin key_lalt key_rshift key_rctrl key_rwin key_ralt key_print_screen key_scroll_lock :
      KeyCode
  key_pause key_insert key_home key_page_up key_delete key_end key_page_down key_num_lock : KeyCode
  key_apps key_u_arrow key_l_arrow key_d_arrow key_r_arrow key_kp_0 key_kp_1 key_kp_2 key_kp_3 :
      KeyCode
  key_kp_4 key_kp_5 key_kp_6 key_kp_7 key_kp_8 key_kp_9 key_kp_divide key_kp_asterisk : KeyCode
  key_kp_minus key_kp_plus key_kp_enter key_kp_dot key_unknown : KeyCode

-- The values of the enumerators.
abbrev pub value : KeyCode → ℕ
value key_a = b'a'
value key_b = b'b'
value key_c = b'c'
value key_d = b'd'
value key_e = b'e'
value key_f = b'f'
value key_g = b'g'
value key_h = b'h'
value key_i = b'i'
value key_j = b'j'
value key_k = b'k'
value key_l = b'l'
value key_m = b'm'
value key_n = b'n'
value key_o = b'o'
value key_p = b'p'
value key_q = b'q'
value key_r = b'r'
value key_s = b's'
value key_t = b't'
value key_u = b'u'
value key_v = b'v'
value key_w = b'w'
value key_x = b'x'
value key_y = b'y'
value key_z = b'z'
value key_0 = b'0'
value key_1 = b'1'
value key_2 = b'2'
value key_3 = b'3'
value key_4 = b'4'
value key_5 = b'5'
value key_6 = b'6'
value key_7 = b'7'
value key_8 = b'8'
value key_9 = b'9'
value key_grave = b'`'
value key_minus = b'-'
value key_equal = b'='
value key_backslash = 0x5c
value key_space = 0x20
value key_left_bracket = b'['
value key_right_bracket = b']'
value key_semicolon = b';'
value key_quote = 0x27
value key_comma = b','
value key_dot = b'.'
value key_slash = b'/'
value key_backspace = 0x8
value key_enter = 0xd
value key_tab = 0x9
value key_esc = 0x1b
value key_fn1 = 0x1001
value key_fn2 = 0x1002
value key_fn3 = 0x1003
value key_fn4 = 0x1004
value key_fn5 = 0x1005
value key_fn6 = 0x1006
value key_fn7 = 0x1007
value key_fn8 = 0x1008
value key_fn9 = 0x1009
value key_fn10 = 0x100a
value key_fn11 = 0x100b
value key_fn12 = 0x100c
value key_caps_lock = 0x2001
value key_lshift = 0x2002
value key_lctrl = 0x2003
value key_lwin = 0x2004
value key_lalt = 0x2005
value key_rshift = 0x2006
value key_rctrl = 0x2007
value key_rwin = 0x2008
value key_ralt = 0x2009
value key_print_screen = 0x200a
value key_scroll_lock = 0x200b
value key_pause = 0x200c
value key_insert = 0x200d
value key_home = 0x200e
value key_page_up = 0x200f
value key_delete = 0x2010
value key_end = 0x2011
value key_page_down = 0x2012
value key_num_lock = 0x2013
value key_apps = 0x2014
value key_u_arrow = 0x3001
value key_l_arrow = 0x3002
value key_d_arrow = 0x3003
value key_r_arrow = 0x3004
value key_kp_0 = 0x4000
value key_kp_1 = 0x4001
value key_kp_2 = 0x4002
value key_kp_3 = 0x4003
value key_kp_4 = 0x4004
value key_kp_5 = 0x4005
value key_kp_6 = 0x4006
value key_kp_7 = 0x4007
value key_kp_8 = 0x4008
value key_kp_9 = 0x4009
value key_kp_divide = 0x400a
value key_kp_asterisk = 0x400b
value key_kp_minus = 0x400c
value key_kp_plus = 0x400d
value key_kp_enter = 0x400e
value key_kp_dot = 0x400f
value key_unknown = 0x4010

-- `enum key_state`.
pub data KeyState : Type 0 where
  none lshift lctrl lwin lalt rshift rctrl rwin ralt num_lock caps_lock scroll_lock : KeyState

-- The bit of a state in the word `key_states`.
abbrev pub mask : KeyState → ℕ
mask none = 0x0
mask lshift = 0x1
mask lctrl = 0x2
mask lwin = 0x4
mask lalt = 0x8
mask rshift = 0x10
mask rctrl = 0x20
mask rwin = 0x40
mask ralt = 0x80
mask num_lock = 0x100
mask caps_lock = 0x200
mask scroll_lock = 0x400

-- `make2key`, indexed by the make code.
abbrev pub make2key : List KeyCode
make2key =
    key_unknown ∷ key_esc ∷ key_1 ∷ key_2 ∷ key_3 ∷ key_4 ∷ key_5 ∷ key_6 ∷ key_7 ∷ key_8 ∷ key_9
    ∷ key_0 ∷ key_minus ∷ key_equal ∷ key_backspace ∷ key_tab ∷ key_q ∷ key_w ∷ key_e ∷ key_r
    ∷ key_t ∷ key_y ∷ key_u ∷ key_i ∷ key_o ∷ key_p ∷ key_left_bracket ∷ key_right_bracket
    ∷ key_enter ∷ key_lctrl ∷ key_a ∷ key_s ∷ key_d ∷ key_f ∷ key_g ∷ key_h ∷ key_j ∷ key_k ∷ key_l
    ∷ key_semicolon ∷ key_quote ∷ key_grave ∷ key_lshift ∷ key_backslash ∷ key_z ∷ key_x ∷ key_c
    ∷ key_v ∷ key_b ∷ key_n ∷ key_m ∷ key_comma ∷ key_dot ∷ key_slash ∷ key_rshift ∷ key_kp_asterisk
    ∷ key_lalt ∷ key_space ∷ key_caps_lock ∷ key_fn1 ∷ key_fn2 ∷ key_fn3 ∷ key_fn4 ∷ key_fn5
    ∷ key_fn6 ∷ key_fn7 ∷ key_fn8 ∷ key_fn9 ∷ key_fn10 ∷ key_num_lock ∷ key_scroll_lock ∷ key_kp_7
    ∷ key_kp_8 ∷ key_kp_9 ∷ key_kp_minus ∷ key_kp_4 ∷ key_kp_5 ∷ key_kp_6 ∷ key_kp_plus ∷ key_kp_1
    ∷ key_kp_2 ∷ key_kp_3 ∷ key_kp_0 ∷ key_kp_dot ∷ key_unknown ∷ key_unknown ∷ key_unknown
    ∷ key_fn11 ∷ key_fn12 ∷ []
