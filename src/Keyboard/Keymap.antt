-- ===== src/Keyboard/Keymap.antt =====
-- The table of include/sys/keymap.h: for each scan code the key without and with a shift key, and
-- the key behind 0xE0. A key from 256 on is a constant of include/sys/keyboard.h.
use kusa_os.Base.{ℕ, zero, suc, List, [], ◌∷◌}

-- The row of a scan code below NR_SCAN_CODES
unfoldable pub keyrow : ℕ → List (ℕ × ℕ × ℕ) → ℕ × ℕ × ℕ
keyrow n [] = (0, 0, 0)
keyrow zero (r ∷ rows) = r
keyrow (suc n) (r ∷ rows) = keyrow n rows

abbrev pub keymap : List (ℕ × ℕ × ℕ)
keymap =
    (0, 0, 0)
    ∷ (257, 257, 0)
    ∷ (49, 33, 0)
    ∷ (50, 64, 0)
    ∷ (51, 35, 0)
    ∷ (52, 36, 0)
    ∷ (53, 37, 0)
    ∷ (54, 94, 0)
    ∷ (55, 38, 0)
    ∷ (56, 42, 0)
    ∷ (57, 40, 0)
    ∷ (48, 41, 0)
    ∷ (45, 95, 0)
    ∷ (61, 43, 0)
    ∷ (260, 260, 0)
    ∷ (258, 258, 0)
    ∷ (113, 81, 0)
    ∷ (119, 87, 0)
    ∷ (101, 69, 0)
    ∷ (114, 82, 0)
    ∷ (116, 84, 0)
    ∷ (121, 89, 0)
    ∷ (117, 85, 0)
    ∷ (105, 73, 0)
    ∷ (111, 79, 0)
    ∷ (112, 80, 0)
    ∷ (91, 123, 0)
    ∷ (93, 125, 0)
    ∷ (259, 259, 304)
    ∷ (266, 266, 267)
    ∷ (97, 65, 0)
    ∷ (115, 83, 0)
    ∷ (100, 68, 0)
    ∷ (102, 70, 0)
    ∷ (103, 71, 0)
    ∷ (104, 72, 0)
    ∷ (106, 74, 0)
    ∷ (107, 75, 0)
    ∷ (108, 76, 0)
    ∷ (59, 58, 0)
    ∷ (39, 34, 0)
    ∷ (96, 126, 0)
    ∷ (264, 264, 0)
    ∷ (92, 124, 0)
    ∷ (122, 90, 0)
    ∷ (120, 88, 0)
    ∷ (99, 67, 0)
    ∷ (118, 86, 0)
    ∷ (98, 66, 0)
    ∷ (110, 78, 0)
    ∷ (109, 77, 0)
    ∷ (44, 60, 0)
    ∷ (46, 62, 0)
    ∷ (47, 63, 300)
    ∷ (265, 265, 0)
    ∷ (42, 42, 0)
    ∷ (268, 268, 269)
    ∷ (32, 32, 0)
    ∷ (270, 270, 0)
    ∷ (273, 273, 0)
    ∷ (274, 274, 0)
    ∷ (275, 275, 0)
    ∷ (276, 276, 0)
    ∷ (277, 277, 0)
    ∷ (278, 278, 0)
    ∷ (279, 279, 0)
    ∷ (280, 280, 0)
    ∷ (281, 281, 0)
    ∷ (282, 282, 0)
    ∷ (271, 271, 0)
    ∷ (272, 272, 0)
    ∷ (313, 55, 289)
    ∷ (314, 56, 293)
    ∷ (315, 57, 291)
    ∷ (302, 45, 0)
    ∷ (310, 52, 295)
    ∷ (311, 53, 0)
    ∷ (312, 54, 296)
    ∷ (303, 43, 0)
    ∷ (307, 49, 290)
    ∷ (308, 50, 294)
    ∷ (309, 51, 292)
    ∷ (306, 48, 287)
    ∷ (305, 46, 288)
    ∷ (0, 0, 0)
    ∷ (0, 0, 0)
    ∷ (0, 0, 0)
    ∷ (283, 283, 0)
    ∷ (284, 284, 0)
    ∷ (0, 0, 0)
    ∷ (0, 0, 0)
    ∷ (0, 0, 261)
    ∷ (0, 0, 262)
    ∷ (0, 0, 263)
    ∷ (0, 0, 0)
    ∷ (0, 0, 0)
    ∷ (0, 0, 0)
    ∷ (0, 0, 0)
    ∷ (0, 0, 0)
    ∷ (0, 0, 0)
    ∷ (0, 0, 0)
    ∷ (0, 0, 0)
    ∷ (0, 0, 0)
    ∷ (0, 0, 0)
    ∷ (0, 0, 0)
    ∷ (0, 0, 0)
    ∷ (0, 0, 0)
    ∷ (0, 0, 0)
    ∷ (0, 0, 0)
    ∷ (0, 0, 0)
    ∷ (0, 0, 0)
    ∷ (0, 0, 0)
    ∷ (0, 0, 0)
    ∷ (0, 0, 0)
    ∷ (0, 0, 0)
    ∷ (0, 0, 0)
    ∷ (0, 0, 0)
    ∷ (0, 0, 0)
    ∷ (0, 0, 0)
    ∷ (0, 0, 0)
    ∷ (0, 0, 0)
    ∷ (0, 0, 0)
    ∷ (0, 0, 0)
    ∷ (0, 0, 0)
    ∷ (0, 0, 0)
    ∷ (0, 0, 0)
    ∷ (0, 0, 0)
    ∷ (0, 0, 0)
    ∷ []
