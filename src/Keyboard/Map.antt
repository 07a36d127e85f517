-- ===== src/Keyboard/Map.antt =====
-- The key map of kernel/include/keyboard.h: two columns, without and with shift, for each scan code.
use s_os.Base.{ℕ, List, [], ◌∷◌, ◌++◌}

-- `keycode_map_normal`, sixteen scan codes in a row
unfoldable pub keycode_map_normal : List ℕ
keycode_map_normal =
    (0
      ∷ (0
          ∷ (0
              ∷ (0
                  ∷ (49
                      ∷ (33
                          ∷ (50
                              ∷ (64
                                  ∷ (51
                                      ∷ (35
                                          ∷ (52
                                              ∷ (36
                                                  ∷ (53
                                                      ∷ (37
                                                          ∷ (54
                                                            ∷ (94
                                                            ∷ (55
                                                            ∷ (38
                                                            ∷ (56
                                                            ∷ (42
                                                            ∷ (57
                                                            ∷ (40
                                                            ∷ (48
                                                            ∷ (41
                                                            ∷ (45
                                                            ∷ (95
                                                            ∷ (61
                                                            ∷ (43
                                                            ∷ (0
                                                            ∷ (0
                                                            ∷ (0
                                                            ∷ (0
                                                            ∷ []))))))))))))))))))))))))))))))))
    ++ ((113
          ∷ (81
              ∷ (119
                  ∷ (87
                      ∷ (101
                          ∷ (69
                              ∷ (114
                                  ∷ (82
                                      ∷ (116
                                          ∷ (84
                                              ∷ (121
                                                  ∷ (89
                                                      ∷ (117
                                                          ∷ (85
                                                            ∷ (105
                                                            ∷ (73
                                                            ∷ (111
                                                            ∷ (79
                                                            ∷ (112
                                                            ∷ (80
                                                            ∷ (91
                                                            ∷ (123
                                                            ∷ (93
                                                            ∷ (125
                                                            ∷ (0
                                                            ∷ (0
                                                            ∷ (29
                                                            ∷ (29
                                                            ∷ (97
                                                            ∷ (65
                                                            ∷ (115
                                                            ∷ (83
                                                            ∷ []))))))))))))))))))))))))))))))))
        ++ ((100
              ∷ (68
                  ∷ (102
                      ∷ (70
                          ∷ (103
                              ∷ (71
                                  ∷ (104
                                      ∷ (72
                                          ∷ (106
                                              ∷ (74
                                                  ∷ (107
                                                      ∷ (75
                                                          ∷ (108
                                                            ∷ (76
                                                            ∷ (59
                                                            ∷ (58
                                                            ∷ (39
                                                            ∷ (34
                                                            ∷ (96
                                                            ∷ (126
                                                            ∷ (42
                                                            ∷ (42
                                                            ∷ (92
                                                            ∷ (124
                                                            ∷ (122
                                                            ∷ (90
                                                            ∷ (120
                                                            ∷ (88
                                                            ∷ (99
                                                            ∷ (67
                                                            ∷ (118
                                                            ∷ (86
                                                            ∷ []))))))))))))))))))))))))))))))))
            ++ ((98
                  ∷ (66
                      ∷ (110
                          ∷ (78
                              ∷ (109
                                  ∷ (77
                                      ∷ (44
                                          ∷ (60
                                              ∷ (46
                                                  ∷ (62
                                                      ∷ (47
                                                          ∷ (63
                                                            ∷ (54
                                                            ∷ (54
                                                            ∷ (42
                                                            ∷ (42
                                                            ∷ (56
                                                            ∷ (56
                                                            ∷ (32
                                                            ∷ (32
                                                            ∷ (0
                                                            ∷ (0
                                                            ∷ (0
                                                            ∷ (0
                                                            ∷ (0
                                                            ∷ (0
                                                            ∷ (0
                                                            ∷ (0
                                                            ∷ (0
                                                            ∷ (0
                                                            ∷ (0
                                                            ∷ (0
                                                            ∷ []))))))))))))))))))))))))))))))))
                ++ ((0
                      ∷ (0
                          ∷ (0
                              ∷ (0
                                  ∷ (0
                                      ∷ (0
                                          ∷ (0
                                              ∷ (0
                                                  ∷ (0
                                                      ∷ (0
                                                          ∷ (0
                                                            ∷ (0
                                                            ∷ (0
                                                            ∷ (0
                                                            ∷ (55
                                                            ∷ (0
                                                            ∷ (56
                                                            ∷ (0
                                                            ∷ (57
                                                            ∷ (0
                                                            ∷ (45
                                                            ∷ (0
                                                            ∷ (52
                                                            ∷ (0
                                                            ∷ (53
                                                            ∷ (0
                                                            ∷ (54
                                                            ∷ (0
                                                            ∷ (43
                                                            ∷ (0
                                                            ∷ (49
                                                            ∷ (0
                                                            ∷ []))))))))))))))))))))))))))))))))
                    ++ ((50
                          ∷ (0
                              ∷ (51
                                  ∷ (0
                                      ∷ (48
                                          ∷ (0
                                              ∷ (46
                                                  ∷ (0
                                                      ∷ (0
                                                          ∷ (0
                                                            ∷ (0
                                                            ∷ (0
                                                            ∷ (0
                                                            ∷ (0
                                                            ∷ (0
                                                            ∷ (0
                                                            ∷ (0
                                                            ∷ (0
                                                            ∷ (0
                                                            ∷ (0
                                                            ∷ (0
                                                            ∷ (0
                                                            ∷ (0
                                                            ∷ (0
                                                            ∷ (0
                                                            ∷ (0
                                                            ∷ (0
                                                            ∷ (0
                                                            ∷ (0
                                                            ∷ (0
                                                            ∷ (0
                                                            ∷ (0
                                                            ∷ []))))))))))))))))))))))))))))))))
                        ++ ((0
                              ∷ (0
                                  ∷ (0
                                      ∷ (0
                                          ∷ (0
                                              ∷ (0
                                                  ∷ (0
                                                      ∷ (0
                                                          ∷ (0
                                                            ∷ (0
                                                            ∷ (0
                                                            ∷ (0
                                                            ∷ (0
                                                            ∷ (0
                                                            ∷ (0
                                                            ∷ (0
                                                            ∷ (0
                                                            ∷ (0
                                                            ∷ (0
                                                            ∷ (0
                                                            ∷ (0
                                                            ∷ (0
                                                            ∷ (0
                                                            ∷ (0
                                                            ∷ (0
                                                            ∷ (0
                                                            ∷ (0
                                                            ∷ (0
                                                            ∷ (0
                                                            ∷ (0
                                                            ∷ (0
                                                            ∷ (0
                                                            ∷ []))))))))))))))))))))))))))))))))
                            ++ ((0
                                ∷ (0
                                    ∷ (0
                                        ∷ (0
                                            ∷ (0
                                                ∷ (0
                                                    ∷ (0
                                                        ∷ (0
                                                            ∷ (0
                                                            ∷ (0
                                                            ∷ (0
                                                            ∷ (0
                                                            ∷ (0
                                                            ∷ (0
                                                            ∷ (0
                                                            ∷ (0
                                                            ∷ (0
                                                            ∷ (0
                                                            ∷ (0
                                                            ∷ (0
                                                            ∷ (0
                                                            ∷ (0
                                                            ∷ (0
                                                            ∷ (0
                                                            ∷ (0
                                                            ∷ (0
                                                            ∷ (0
                                                            ∷ (0
                                                            ∷ (0
                                                            ∷ (0
                                                            ∷ (0
                                                            ∷ (0
                                                            ∷ [])))))))))))))))))))))))))))))))))))))))
