-- ===== src/Screen/Tests.antt =====
-- The cursor on a screen of 640 x 480 pixels.
use s_os.Base.{[]}
use s_os.Screen.{Position}

abbrev second_row : Position
second_row = record {
  x_resolution = 640;
  y_resolution = 480;
  x_position = 0;
  y_position = 1;
  x_char_size = 8;
  y_char_size = 16;
  drawn = [];
}
