-- ===== src/Huffman/Table.antt =====
-- pajamax/src/huffman/table.rs: the two generated tables, in one module for each stretch of rows.
mod Encode
mod Decode000
mod Decode008
mod Decode016
mod Decode024
mod Decode032
mod Decode040
mod Decode048
mod Decode056
mod Decode064
mod Decode072
mod Decode080
mod Decode088
mod Decode096
mod Decode104
mod Decode112
mod Decode120
mod Decode128
mod Decode136
mod Decode144
mod Decode152
mod Decode160
mod Decode168
mod Decode176
mod Decode184
mod Decode192
mod Decode200
mod Decode208
mod Decode216
mod Decode224
mod Decode232
mod Decode240
mod Decode248
use pajamax.Prelude.{ℕ, List, ◌++◌}
use Encode.{encode_low, encode_high}
use Decode000.{states_000}
use Decode008.{states_008}
use Decode016.{states_016}
use Decode024.{states_024}
use Decode032.{states_032}
use Decode040.{states_040}
use Decode048.{states_048}
use Decode056.{states_056}
use Decode064.{states_064}
use Decode072.{states_072}
use Decode080.{states_080}
use Decode088.{states_088}
use Decode096.{states_096}
use Decode104.{states_104}
use Decode112.{states_112}
use Decode120.{states_120}
use Decode128.{states_128}
use Decode136.{states_136}
use Decode144.{states_144}
use Decode152.{states_152}
use Decode160.{states_160}
use Decode168.{states_168}
use Decode176.{states_176}
use Decode184.{states_184}
use Decode192.{states_192}
use Decode200.{states_200}
use Decode208.{states_208}
use Decode216.{states_216}
use Decode224.{states_224}
use Decode232.{states_232}
use Decode240.{states_240}
use Decode248.{states_248}

-- `ENCODE_TABLE`, its last entry the end of the string.
unfoldable pub encode_table : List (ℕ × ℕ)
encode_table = encode_low ++ encode_high

-- `DECODE_TABLE`.
unfoldable pub decode_table : List (List (ℕ × ℕ × ℕ))
decode_table =
    (states_000
      ++ (states_008
          ++ (states_016
              ++ (states_024
                  ++ (states_032
                      ++ (states_040
                          ++ (states_048
                              ++ (states_056
                                  ++ (states_064
                                      ++ (states_072
                                          ++ (states_080
                                              ++ (states_088
                                                  ++ (states_096
                                                      ++ (states_104
                                                          ++ (states_112
                                                            ++ (states_120
                                                            ++ (states_128
                                                            ++ (states_136
                                                            ++ (states_144
                                                            ++ (states_152
                                                            ++ (states_160
                                                            ++ (states_168
                                                            ++ (states_176
                                                            ++ (states_184
                                                            ++ (states_192
                                                            ++ (states_200
                                                            ++ (states_208
                                                            ++ (states_216
                                                            ++ (states_224
                                                            ++ (states_232
                                                            ++ (states_240
                                                            ++ states_248)))))))))))))))))))))))))))))))
