-- ===== src/CharMap/Tables/Pages905.antt =====
-- Tables of libtnX/transmaps.h: code pages 905, 880, 420, 875.
use linux_sna.Base.{[], ◌∷◌, Bytes}

-- iso_8859_3_to_ibm905
abbrev pub iso_8859_3_to_ibm905 : Bytes
iso_8859_3_to_ibm905 =
    0 ∷ 1 ∷ 2 ∷ 3 ∷ 55 ∷ 45 ∷ 46 ∷ 47 ∷ 22 ∷ 5 ∷ 37 ∷ 11 ∷ 12 ∷ 13 ∷ 14 ∷ 15 ∷ 16 ∷ 17 ∷ 18 ∷ 19
    ∷ 60 ∷ 61 ∷ 50 ∷ 38 ∷ 24 ∷ 25 ∷ 63 ∷ 39 ∷ 28 ∷ 29 ∷ 30 ∷ 31 ∷ 64 ∷ 79 ∷ 252 ∷ 236 ∷ 185 ∷ 108
    ∷ 80 ∷ 125 ∷ 77 ∷ 93 ∷ 92 ∷ 78 ∷ 107 ∷ 96 ∷ 75 ∷ 97 ∷ 240 ∷ 241 ∷ 242 ∷ 243 ∷ 244 ∷ 245 ∷ 246
    ∷ 247 ∷ 248 ∷ 249 ∷ 122 ∷ 94 ∷ 76 ∷ 126 ∷ 110 ∷ 111 ∷ 175 ∷ 193 ∷ 194 ∷ 195 ∷ 196 ∷ 197 ∷ 198
    ∷ 199 ∷ 200 ∷ 201 ∷ 209 ∷ 210 ∷ 211 ∷ 212 ∷ 213 ∷ 214 ∷ 215 ∷ 216 ∷ 217 ∷ 226 ∷ 227 ∷ 228 ∷ 229
    ∷ 230 ∷ 231 ∷ 232 ∷ 233 ∷ 104 ∷ 220 ∷ 182 ∷ 95 ∷ 109 ∷ 218 ∷ 129 ∷ 130 ∷ 131 ∷ 132 ∷ 133 ∷ 134
    ∷ 135 ∷ 136 ∷ 137 ∷ 145 ∷ 146 ∷ 147 ∷ 148 ∷ 149 ∷ 150 ∷ 151 ∷ 152 ∷ 153 ∷ 162 ∷ 163 ∷ 164 ∷ 165
    ∷ 166 ∷ 167 ∷ 168 ∷ 169 ∷ 72 ∷ 143 ∷ 179 ∷ 204 ∷ 7 ∷ 32 ∷ 33 ∷ 34 ∷ 35 ∷ 36 ∷ 21 ∷ 6 ∷ 23 ∷ 40
    ∷ 41 ∷ 42 ∷ 43 ∷ 44 ∷ 9 ∷ 10 ∷ 27 ∷ 48 ∷ 49 ∷ 26 ∷ 51 ∷ 52 ∷ 53 ∷ 54 ∷ 8 ∷ 56 ∷ 57 ∷ 58 ∷ 59 ∷ 4
    ∷ 20 ∷ 62 ∷ 255 ∷ 65 ∷ 170 ∷ 128 ∷ 177 ∷ 159 ∷ 142 ∷ 186 ∷ 181 ∷ 189 ∷ 91 ∷ 124 ∷ 90 ∷ 188 ∷ 202
    ∷ 174 ∷ 180 ∷ 144 ∷ 138 ∷ 234 ∷ 250 ∷ 190 ∷ 160 ∷ 154 ∷ 176 ∷ 157 ∷ 121 ∷ 106 ∷ 208 ∷ 156 ∷ 184
    ∷ 158 ∷ 178 ∷ 100 ∷ 101 ∷ 98 ∷ 102 ∷ 99 ∷ 103 ∷ 171 ∷ 74 ∷ 116 ∷ 113 ∷ 114 ∷ 115 ∷ 120 ∷ 117
    ∷ 118 ∷ 119 ∷ 70 ∷ 105 ∷ 237 ∷ 238 ∷ 235 ∷ 239 ∷ 123 ∷ 191 ∷ 187 ∷ 253 ∷ 254 ∷ 251 ∷ 127 ∷ 173
    ∷ 172 ∷ 89 ∷ 68 ∷ 69 ∷ 66 ∷ 223 ∷ 67 ∷ 71 ∷ 139 ∷ 192 ∷ 84 ∷ 81 ∷ 82 ∷ 83 ∷ 88 ∷ 85 ∷ 86 ∷ 87
    ∷ 183 ∷ 73 ∷ 205 ∷ 206 ∷ 203 ∷ 207 ∷ 161 ∷ 225 ∷ 155 ∷ 221 ∷ 222 ∷ 219 ∷ 224 ∷ 141 ∷ 140 ∷ 112
    ∷ []

-- ibm905_to_iso_8859_3
abbrev pub ibm905_to_iso_8859_3 : Bytes
ibm905_to_iso_8859_3 =
    0 ∷ 1 ∷ 2 ∷ 3 ∷ 156 ∷ 9 ∷ 134 ∷ 127 ∷ 151 ∷ 141 ∷ 142 ∷ 11 ∷ 12 ∷ 13 ∷ 14 ∷ 15 ∷ 16 ∷ 17 ∷ 18
    ∷ 19 ∷ 157 ∷ 133 ∷ 8 ∷ 135 ∷ 24 ∷ 25 ∷ 146 ∷ 143 ∷ 28 ∷ 29 ∷ 30 ∷ 31 ∷ 128 ∷ 129 ∷ 130 ∷ 131
    ∷ 132 ∷ 10 ∷ 23 ∷ 27 ∷ 136 ∷ 137 ∷ 138 ∷ 139 ∷ 140 ∷ 5 ∷ 6 ∷ 7 ∷ 144 ∷ 145 ∷ 22 ∷ 147 ∷ 148
    ∷ 149 ∷ 150 ∷ 4 ∷ 152 ∷ 153 ∷ 154 ∷ 155 ∷ 20 ∷ 21 ∷ 158 ∷ 26 ∷ 32 ∷ 160 ∷ 226 ∷ 228 ∷ 224 ∷ 225
    ∷ 208 ∷ 229 ∷ 123 ∷ 241 ∷ 199 ∷ 46 ∷ 60 ∷ 40 ∷ 43 ∷ 33 ∷ 38 ∷ 233 ∷ 234 ∷ 235 ∷ 232 ∷ 237 ∷ 238
    ∷ 239 ∷ 236 ∷ 223 ∷ 171 ∷ 169 ∷ 42 ∷ 41 ∷ 59 ∷ 94 ∷ 45 ∷ 47 ∷ 194 ∷ 196 ∷ 192 ∷ 193 ∷ 195 ∷ 197
    ∷ 91 ∷ 209 ∷ 186 ∷ 44 ∷ 37 ∷ 95 ∷ 62 ∷ 63 ∷ 255 ∷ 201 ∷ 202 ∷ 203 ∷ 200 ∷ 205 ∷ 206 ∷ 207 ∷ 204
    ∷ 185 ∷ 58 ∷ 214 ∷ 170 ∷ 39 ∷ 61 ∷ 220 ∷ 162 ∷ 97 ∷ 98 ∷ 99 ∷ 100 ∷ 101 ∷ 102 ∷ 103 ∷ 104 ∷ 105
    ∷ 177 ∷ 230 ∷ 254 ∷ 253 ∷ 165 ∷ 124 ∷ 176 ∷ 106 ∷ 107 ∷ 108 ∷ 109 ∷ 110 ∷ 111 ∷ 112 ∷ 113 ∷ 114
    ∷ 182 ∷ 248 ∷ 188 ∷ 184 ∷ 190 ∷ 164 ∷ 181 ∷ 246 ∷ 115 ∷ 116 ∷ 117 ∷ 118 ∷ 119 ∷ 120 ∷ 121 ∷ 122
    ∷ 161 ∷ 198 ∷ 222 ∷ 221 ∷ 174 ∷ 64 ∷ 183 ∷ 163 ∷ 191 ∷ 125 ∷ 175 ∷ 167 ∷ 93 ∷ 240 ∷ 189 ∷ 36
    ∷ 166 ∷ 216 ∷ 172 ∷ 168 ∷ 180 ∷ 215 ∷ 231 ∷ 65 ∷ 66 ∷ 67 ∷ 68 ∷ 69 ∷ 70 ∷ 71 ∷ 72 ∷ 73 ∷ 173
    ∷ 244 ∷ 126 ∷ 242 ∷ 243 ∷ 245 ∷ 187 ∷ 74 ∷ 75 ∷ 76 ∷ 77 ∷ 78 ∷ 79 ∷ 80 ∷ 81 ∷ 82 ∷ 96 ∷ 251 ∷ 92
    ∷ 249 ∷ 250 ∷ 227 ∷ 252 ∷ 247 ∷ 83 ∷ 84 ∷ 85 ∷ 86 ∷ 87 ∷ 88 ∷ 89 ∷ 90 ∷ 178 ∷ 212 ∷ 35 ∷ 210
    ∷ 211 ∷ 213 ∷ 48 ∷ 49 ∷ 50 ∷ 51 ∷ 52 ∷ 53 ∷ 54 ∷ 55 ∷ 56 ∷ 57 ∷ 179 ∷ 219 ∷ 34 ∷ 217 ∷ 218 ∷ 159
    ∷ []

-- iso_8859_5_to_ibm880
abbrev pub iso_8859_5_to_ibm880 : Bytes
iso_8859_5_to_ibm880 =
    0 ∷ 1 ∷ 2 ∷ 3 ∷ 55 ∷ 45 ∷ 46 ∷ 47 ∷ 22 ∷ 5 ∷ 37 ∷ 11 ∷ 12 ∷ 13 ∷ 14 ∷ 15 ∷ 16 ∷ 17 ∷ 18 ∷ 19
    ∷ 60 ∷ 61 ∷ 50 ∷ 38 ∷ 24 ∷ 25 ∷ 63 ∷ 39 ∷ 28 ∷ 29 ∷ 30 ∷ 31 ∷ 64 ∷ 79 ∷ 127 ∷ 123 ∷ 91 ∷ 108
    ∷ 80 ∷ 125 ∷ 77 ∷ 93 ∷ 92 ∷ 78 ∷ 107 ∷ 96 ∷ 75 ∷ 97 ∷ 240 ∷ 241 ∷ 242 ∷ 243 ∷ 244 ∷ 245 ∷ 246
    ∷ 247 ∷ 248 ∷ 249 ∷ 122 ∷ 94 ∷ 76 ∷ 126 ∷ 110 ∷ 111 ∷ 124 ∷ 193 ∷ 194 ∷ 195 ∷ 196 ∷ 197 ∷ 198
    ∷ 199 ∷ 200 ∷ 201 ∷ 209 ∷ 210 ∷ 211 ∷ 212 ∷ 213 ∷ 214 ∷ 215 ∷ 216 ∷ 217 ∷ 226 ∷ 227 ∷ 228 ∷ 229
    ∷ 230 ∷ 231 ∷ 232 ∷ 233 ∷ 74 ∷ 224 ∷ 90 ∷ 95 ∷ 109 ∷ 100 ∷ 129 ∷ 130 ∷ 131 ∷ 132 ∷ 133 ∷ 134
    ∷ 135 ∷ 136 ∷ 137 ∷ 145 ∷ 146 ∷ 147 ∷ 148 ∷ 149 ∷ 150 ∷ 151 ∷ 152 ∷ 153 ∷ 162 ∷ 163 ∷ 164 ∷ 165
    ∷ 166 ∷ 167 ∷ 168 ∷ 169 ∷ 161 ∷ 69 ∷ 115 ∷ 121 ∷ 7 ∷ 32 ∷ 33 ∷ 34 ∷ 35 ∷ 36 ∷ 21 ∷ 6 ∷ 23 ∷ 40
    ∷ 41 ∷ 42 ∷ 43 ∷ 44 ∷ 9 ∷ 10 ∷ 27 ∷ 48 ∷ 49 ∷ 26 ∷ 51 ∷ 52 ∷ 53 ∷ 54 ∷ 8 ∷ 56 ∷ 57 ∷ 58 ∷ 59 ∷ 4
    ∷ 20 ∷ 62 ∷ 255 ∷ 192 ∷ 99 ∷ 89 ∷ 98 ∷ 208 ∷ 101 ∷ 102 ∷ 103 ∷ 104 ∷ 105 ∷ 112 ∷ 113 ∷ 114 ∷ 65
    ∷ 116 ∷ 117 ∷ 185 ∷ 186 ∷ 237 ∷ 191 ∷ 188 ∷ 189 ∷ 236 ∷ 250 ∷ 203 ∷ 204 ∷ 205 ∷ 206 ∷ 207 ∷ 218
    ∷ 219 ∷ 220 ∷ 222 ∷ 223 ∷ 234 ∷ 235 ∷ 190 ∷ 202 ∷ 187 ∷ 254 ∷ 251 ∷ 253 ∷ 87 ∷ 239 ∷ 238 ∷ 252
    ∷ 184 ∷ 221 ∷ 119 ∷ 120 ∷ 175 ∷ 141 ∷ 138 ∷ 139 ∷ 174 ∷ 178 ∷ 143 ∷ 144 ∷ 154 ∷ 155 ∷ 156 ∷ 157
    ∷ 158 ∷ 159 ∷ 170 ∷ 171 ∷ 172 ∷ 173 ∷ 140 ∷ 142 ∷ 128 ∷ 182 ∷ 179 ∷ 181 ∷ 183 ∷ 177 ∷ 176 ∷ 180
    ∷ 118 ∷ 160 ∷ 88 ∷ 68 ∷ 66 ∷ 67 ∷ 106 ∷ 70 ∷ 71 ∷ 72 ∷ 73 ∷ 81 ∷ 82 ∷ 83 ∷ 84 ∷ 225 ∷ 85 ∷ 86
    ∷ []

-- ibm880_to_iso_8859_5
abbrev pub ibm880_to_iso_8859_5 : Bytes
ibm880_to_iso_8859_5 =
    0 ∷ 1 ∷ 2 ∷ 3 ∷ 156 ∷ 9 ∷ 134 ∷ 127 ∷ 151 ∷ 141 ∷ 142 ∷ 11 ∷ 12 ∷ 13 ∷ 14 ∷ 15 ∷ 16 ∷ 17 ∷ 18
    ∷ 19 ∷ 157 ∷ 133 ∷ 8 ∷ 135 ∷ 24 ∷ 25 ∷ 146 ∷ 143 ∷ 28 ∷ 29 ∷ 30 ∷ 31 ∷ 128 ∷ 129 ∷ 130 ∷ 131
    ∷ 132 ∷ 10 ∷ 23 ∷ 27 ∷ 136 ∷ 137 ∷ 138 ∷ 139 ∷ 140 ∷ 5 ∷ 6 ∷ 7 ∷ 144 ∷ 145 ∷ 22 ∷ 147 ∷ 148
    ∷ 149 ∷ 150 ∷ 4 ∷ 152 ∷ 153 ∷ 154 ∷ 155 ∷ 20 ∷ 21 ∷ 158 ∷ 26 ∷ 32 ∷ 173 ∷ 242 ∷ 243 ∷ 241 ∷ 124
    ∷ 245 ∷ 246 ∷ 247 ∷ 248 ∷ 91 ∷ 46 ∷ 60 ∷ 40 ∷ 43 ∷ 33 ∷ 38 ∷ 249 ∷ 250 ∷ 251 ∷ 252 ∷ 254 ∷ 255
    ∷ 202 ∷ 240 ∷ 162 ∷ 93 ∷ 36 ∷ 42 ∷ 41 ∷ 59 ∷ 94 ∷ 45 ∷ 47 ∷ 163 ∷ 161 ∷ 96 ∷ 165 ∷ 166 ∷ 167
    ∷ 168 ∷ 169 ∷ 244 ∷ 44 ∷ 37 ∷ 95 ∷ 62 ∷ 63 ∷ 170 ∷ 171 ∷ 172 ∷ 125 ∷ 174 ∷ 175 ∷ 238 ∷ 208 ∷ 209
    ∷ 126 ∷ 58 ∷ 35 ∷ 64 ∷ 39 ∷ 61 ∷ 34 ∷ 230 ∷ 97 ∷ 98 ∷ 99 ∷ 100 ∷ 101 ∷ 102 ∷ 103 ∷ 104 ∷ 105
    ∷ 212 ∷ 213 ∷ 228 ∷ 211 ∷ 229 ∷ 216 ∷ 217 ∷ 106 ∷ 107 ∷ 108 ∷ 109 ∷ 110 ∷ 111 ∷ 112 ∷ 113 ∷ 114
    ∷ 218 ∷ 219 ∷ 220 ∷ 221 ∷ 222 ∷ 223 ∷ 239 ∷ 123 ∷ 115 ∷ 116 ∷ 117 ∷ 118 ∷ 119 ∷ 120 ∷ 121 ∷ 122
    ∷ 224 ∷ 225 ∷ 226 ∷ 227 ∷ 214 ∷ 210 ∷ 236 ∷ 235 ∷ 215 ∷ 232 ∷ 237 ∷ 233 ∷ 231 ∷ 234 ∷ 206 ∷ 176
    ∷ 177 ∷ 198 ∷ 180 ∷ 181 ∷ 196 ∷ 179 ∷ 160 ∷ 65 ∷ 66 ∷ 67 ∷ 68 ∷ 69 ∷ 70 ∷ 71 ∷ 72 ∷ 73 ∷ 197
    ∷ 184 ∷ 185 ∷ 186 ∷ 187 ∷ 188 ∷ 164 ∷ 74 ∷ 75 ∷ 76 ∷ 77 ∷ 78 ∷ 79 ∷ 80 ∷ 81 ∷ 82 ∷ 189 ∷ 190
    ∷ 191 ∷ 207 ∷ 192 ∷ 193 ∷ 92 ∷ 253 ∷ 83 ∷ 84 ∷ 85 ∷ 86 ∷ 87 ∷ 88 ∷ 89 ∷ 90 ∷ 194 ∷ 195 ∷ 182
    ∷ 178 ∷ 204 ∷ 203 ∷ 48 ∷ 49 ∷ 50 ∷ 51 ∷ 52 ∷ 53 ∷ 54 ∷ 55 ∷ 56 ∷ 57 ∷ 183 ∷ 200 ∷ 205 ∷ 201
    ∷ 199 ∷ 159 ∷ []

-- iso_8859_6_to_ibm420
abbrev pub iso_8859_6_to_ibm420 : Bytes
iso_8859_6_to_ibm420 =
    0 ∷ 1 ∷ 2 ∷ 3 ∷ 55 ∷ 45 ∷ 46 ∷ 47 ∷ 22 ∷ 5 ∷ 37 ∷ 11 ∷ 12 ∷ 13 ∷ 14 ∷ 15 ∷ 16 ∷ 17 ∷ 18 ∷ 19
    ∷ 60 ∷ 61 ∷ 50 ∷ 38 ∷ 24 ∷ 25 ∷ 63 ∷ 39 ∷ 28 ∷ 29 ∷ 30 ∷ 31 ∷ 64 ∷ 90 ∷ 127 ∷ 123 ∷ 91 ∷ 108
    ∷ 80 ∷ 125 ∷ 77 ∷ 93 ∷ 92 ∷ 78 ∷ 107 ∷ 96 ∷ 75 ∷ 97 ∷ 240 ∷ 241 ∷ 242 ∷ 243 ∷ 244 ∷ 245 ∷ 246
    ∷ 247 ∷ 248 ∷ 249 ∷ 122 ∷ 94 ∷ 76 ∷ 126 ∷ 110 ∷ 111 ∷ 124 ∷ 193 ∷ 194 ∷ 195 ∷ 196 ∷ 197 ∷ 198
    ∷ 199 ∷ 200 ∷ 201 ∷ 209 ∷ 210 ∷ 211 ∷ 212 ∷ 213 ∷ 214 ∷ 215 ∷ 216 ∷ 217 ∷ 226 ∷ 227 ∷ 228 ∷ 229
    ∷ 230 ∷ 231 ∷ 232 ∷ 233 ∷ 100 ∷ 138 ∷ 205 ∷ 155 ∷ 109 ∷ 104 ∷ 129 ∷ 130 ∷ 131 ∷ 132 ∷ 133 ∷ 134
    ∷ 135 ∷ 136 ∷ 137 ∷ 145 ∷ 146 ∷ 147 ∷ 148 ∷ 149 ∷ 150 ∷ 151 ∷ 152 ∷ 153 ∷ 162 ∷ 163 ∷ 164 ∷ 165
    ∷ 166 ∷ 167 ∷ 168 ∷ 169 ∷ 83 ∷ 79 ∷ 204 ∷ 203 ∷ 7 ∷ 32 ∷ 33 ∷ 34 ∷ 35 ∷ 36 ∷ 21 ∷ 6 ∷ 23 ∷ 40
    ∷ 41 ∷ 42 ∷ 43 ∷ 44 ∷ 9 ∷ 10 ∷ 27 ∷ 48 ∷ 49 ∷ 26 ∷ 51 ∷ 52 ∷ 53 ∷ 54 ∷ 8 ∷ 56 ∷ 57 ∷ 58 ∷ 59 ∷ 4
    ∷ 20 ∷ 62 ∷ 255 ∷ 65 ∷ 161 ∷ 89 ∷ 72 ∷ 74 ∷ 102 ∷ 157 ∷ 120 ∷ 172 ∷ 224 ∷ 170 ∷ 225 ∷ 121 ∷ 202
    ∷ 174 ∷ 84 ∷ 176 ∷ 160 ∷ 178 ∷ 179 ∷ 180 ∷ 181 ∷ 182 ∷ 183 ∷ 184 ∷ 185 ∷ 186 ∷ 192 ∷ 188 ∷ 87
    ∷ 190 ∷ 208 ∷ 106 ∷ 70 ∷ 71 ∷ 73 ∷ 82 ∷ 69 ∷ 85 ∷ 86 ∷ 88 ∷ 98 ∷ 99 ∷ 101 ∷ 103 ∷ 105 ∷ 113
    ∷ 115 ∷ 116 ∷ 117 ∷ 118 ∷ 119 ∷ 128 ∷ 139 ∷ 141 ∷ 143 ∷ 144 ∷ 154 ∷ 158 ∷ 219 ∷ 234 ∷ 221 ∷ 222
    ∷ 223 ∷ 68 ∷ 171 ∷ 173 ∷ 175 ∷ 177 ∷ 187 ∷ 189 ∷ 191 ∷ 207 ∷ 218 ∷ 220 ∷ 235 ∷ 236 ∷ 237 ∷ 238
    ∷ 239 ∷ 81 ∷ 66 ∷ 112 ∷ 142 ∷ 95 ∷ 67 ∷ 140 ∷ 156 ∷ 206 ∷ 114 ∷ 250 ∷ 251 ∷ 252 ∷ 253 ∷ 254
    ∷ 159 ∷ []

-- ibm420_to_iso_8859_6
abbrev pub ibm420_to_iso_8859_6 : Bytes
ibm420_to_iso_8859_6 =
    0 ∷ 1 ∷ 2 ∷ 3 ∷ 156 ∷ 9 ∷ 134 ∷ 127 ∷ 151 ∷ 141 ∷ 142 ∷ 11 ∷ 12 ∷ 13 ∷ 14 ∷ 15 ∷ 16 ∷ 17 ∷ 18
    ∷ 19 ∷ 157 ∷ 133 ∷ 8 ∷ 135 ∷ 24 ∷ 25 ∷ 146 ∷ 143 ∷ 28 ∷ 29 ∷ 30 ∷ 31 ∷ 128 ∷ 129 ∷ 130 ∷ 131
    ∷ 132 ∷ 10 ∷ 23 ∷ 27 ∷ 136 ∷ 137 ∷ 138 ∷ 139 ∷ 140 ∷ 5 ∷ 6 ∷ 7 ∷ 144 ∷ 145 ∷ 22 ∷ 147 ∷ 148
    ∷ 149 ∷ 150 ∷ 4 ∷ 152 ∷ 153 ∷ 154 ∷ 155 ∷ 20 ∷ 21 ∷ 158 ∷ 26 ∷ 32 ∷ 160 ∷ 241 ∷ 245 ∷ 224 ∷ 197
    ∷ 193 ∷ 194 ∷ 163 ∷ 195 ∷ 164 ∷ 46 ∷ 60 ∷ 40 ∷ 43 ∷ 124 ∷ 38 ∷ 240 ∷ 196 ∷ 123 ∷ 175 ∷ 198 ∷ 199
    ∷ 189 ∷ 200 ∷ 162 ∷ 33 ∷ 36 ∷ 42 ∷ 41 ∷ 59 ∷ 244 ∷ 45 ∷ 47 ∷ 201 ∷ 202 ∷ 91 ∷ 203 ∷ 165 ∷ 204
    ∷ 96 ∷ 205 ∷ 192 ∷ 44 ∷ 37 ∷ 95 ∷ 62 ∷ 63 ∷ 242 ∷ 206 ∷ 249 ∷ 207 ∷ 208 ∷ 209 ∷ 210 ∷ 211 ∷ 167
    ∷ 172 ∷ 58 ∷ 35 ∷ 64 ∷ 39 ∷ 61 ∷ 34 ∷ 212 ∷ 97 ∷ 98 ∷ 99 ∷ 100 ∷ 101 ∷ 102 ∷ 103 ∷ 104 ∷ 105
    ∷ 92 ∷ 213 ∷ 246 ∷ 214 ∷ 243 ∷ 215 ∷ 216 ∷ 106 ∷ 107 ∷ 108 ∷ 109 ∷ 110 ∷ 111 ∷ 112 ∷ 113 ∷ 114
    ∷ 217 ∷ 94 ∷ 247 ∷ 166 ∷ 218 ∷ 255 ∷ 177 ∷ 161 ∷ 115 ∷ 116 ∷ 117 ∷ 118 ∷ 119 ∷ 120 ∷ 121 ∷ 122
    ∷ 170 ∷ 225 ∷ 168 ∷ 226 ∷ 174 ∷ 227 ∷ 176 ∷ 228 ∷ 178 ∷ 179 ∷ 180 ∷ 181 ∷ 182 ∷ 183 ∷ 184 ∷ 185
    ∷ 186 ∷ 229 ∷ 188 ∷ 230 ∷ 190 ∷ 231 ∷ 187 ∷ 65 ∷ 66 ∷ 67 ∷ 68 ∷ 69 ∷ 70 ∷ 71 ∷ 72 ∷ 73 ∷ 173
    ∷ 126 ∷ 125 ∷ 93 ∷ 248 ∷ 232 ∷ 191 ∷ 74 ∷ 75 ∷ 76 ∷ 77 ∷ 78 ∷ 79 ∷ 80 ∷ 81 ∷ 82 ∷ 233 ∷ 219
    ∷ 234 ∷ 221 ∷ 222 ∷ 223 ∷ 169 ∷ 171 ∷ 83 ∷ 84 ∷ 85 ∷ 86 ∷ 87 ∷ 88 ∷ 89 ∷ 90 ∷ 220 ∷ 235 ∷ 236
    ∷ 237 ∷ 238 ∷ 239 ∷ 48 ∷ 49 ∷ 50 ∷ 51 ∷ 52 ∷ 53 ∷ 54 ∷ 55 ∷ 56 ∷ 57 ∷ 250 ∷ 251 ∷ 252 ∷ 253
    ∷ 254 ∷ 159 ∷ []

-- iso_8859_7_to_ibm875
abbrev pub iso_8859_7_to_ibm875 : Bytes
iso_8859_7_to_ibm875 =
    0 ∷ 1 ∷ 2 ∷ 3 ∷ 55 ∷ 45 ∷ 46 ∷ 47 ∷ 22 ∷ 5 ∷ 37 ∷ 11 ∷ 12 ∷ 13 ∷ 14 ∷ 15 ∷ 16 ∷ 17 ∷ 18 ∷ 19
    ∷ 60 ∷ 61 ∷ 50 ∷ 38 ∷ 24 ∷ 25 ∷ 63 ∷ 39 ∷ 28 ∷ 29 ∷ 30 ∷ 31 ∷ 64 ∷ 79 ∷ 127 ∷ 123 ∷ 91 ∷ 108
    ∷ 80 ∷ 125 ∷ 77 ∷ 93 ∷ 92 ∷ 78 ∷ 107 ∷ 96 ∷ 75 ∷ 97 ∷ 240 ∷ 241 ∷ 242 ∷ 243 ∷ 244 ∷ 245 ∷ 246
    ∷ 247 ∷ 248 ∷ 249 ∷ 122 ∷ 94 ∷ 76 ∷ 126 ∷ 110 ∷ 111 ∷ 124 ∷ 193 ∷ 194 ∷ 195 ∷ 196 ∷ 197 ∷ 198
    ∷ 199 ∷ 200 ∷ 201 ∷ 209 ∷ 210 ∷ 211 ∷ 212 ∷ 213 ∷ 214 ∷ 215 ∷ 216 ∷ 217 ∷ 226 ∷ 227 ∷ 228 ∷ 229
    ∷ 230 ∷ 231 ∷ 232 ∷ 233 ∷ 74 ∷ 224 ∷ 90 ∷ 95 ∷ 109 ∷ 121 ∷ 129 ∷ 130 ∷ 131 ∷ 132 ∷ 133 ∷ 134
    ∷ 135 ∷ 136 ∷ 137 ∷ 145 ∷ 146 ∷ 147 ∷ 148 ∷ 149 ∷ 150 ∷ 151 ∷ 152 ∷ 153 ∷ 162 ∷ 163 ∷ 164 ∷ 165
    ∷ 166 ∷ 167 ∷ 168 ∷ 169 ∷ 192 ∷ 220 ∷ 208 ∷ 161 ∷ 7 ∷ 32 ∷ 33 ∷ 34 ∷ 35 ∷ 36 ∷ 21 ∷ 6 ∷ 23 ∷ 40
    ∷ 41 ∷ 42 ∷ 43 ∷ 44 ∷ 9 ∷ 10 ∷ 27 ∷ 48 ∷ 49 ∷ 26 ∷ 51 ∷ 52 ∷ 53 ∷ 54 ∷ 8 ∷ 56 ∷ 57 ∷ 58 ∷ 59 ∷ 4
    ∷ 20 ∷ 62 ∷ 255 ∷ 253 ∷ 225 ∷ 222 ∷ 176 ∷ 206 ∷ 252 ∷ 223 ∷ 235 ∷ 112 ∷ 251 ∷ 237 ∷ 238 ∷ 239
    ∷ 202 ∷ 106 ∷ 207 ∷ 144 ∷ 218 ∷ 234 ∷ 250 ∷ 160 ∷ 128 ∷ 113 ∷ 221 ∷ 114 ∷ 115 ∷ 117 ∷ 254 ∷ 118
    ∷ 219 ∷ 119 ∷ 120 ∷ 180 ∷ 65 ∷ 66 ∷ 67 ∷ 68 ∷ 69 ∷ 70 ∷ 71 ∷ 72 ∷ 73 ∷ 81 ∷ 82 ∷ 83 ∷ 84 ∷ 85
    ∷ 86 ∷ 87 ∷ 88 ∷ 116 ∷ 89 ∷ 98 ∷ 99 ∷ 100 ∷ 101 ∷ 102 ∷ 103 ∷ 104 ∷ 105 ∷ 177 ∷ 178 ∷ 179 ∷ 181
    ∷ 184 ∷ 138 ∷ 139 ∷ 140 ∷ 141 ∷ 142 ∷ 143 ∷ 154 ∷ 155 ∷ 156 ∷ 157 ∷ 158 ∷ 159 ∷ 170 ∷ 171 ∷ 172
    ∷ 173 ∷ 174 ∷ 186 ∷ 175 ∷ 187 ∷ 188 ∷ 189 ∷ 190 ∷ 191 ∷ 203 ∷ 204 ∷ 205 ∷ 182 ∷ 183 ∷ 185 ∷ 236
    ∷ []

-- ibm875_to_iso_8859_7
abbrev pub ibm875_to_iso_8859_7 : Bytes
ibm875_to_iso_8859_7 =
    0 ∷ 1 ∷ 2 ∷ 3 ∷ 156 ∷ 9 ∷ 134 ∷ 127 ∷ 151 ∷ 141 ∷ 142 ∷ 11 ∷ 12 ∷ 13 ∷ 14 ∷ 15 ∷ 16 ∷ 17 ∷ 18
    ∷ 19 ∷ 157 ∷ 133 ∷ 8 ∷ 135 ∷ 24 ∷ 25 ∷ 146 ∷ 143 ∷ 28 ∷ 29 ∷ 30 ∷ 31 ∷ 128 ∷ 129 ∷ 130 ∷ 131
    ∷ 132 ∷ 10 ∷ 23 ∷ 27 ∷ 136 ∷ 137 ∷ 138 ∷ 139 ∷ 140 ∷ 5 ∷ 6 ∷ 7 ∷ 144 ∷ 145 ∷ 22 ∷ 147 ∷ 148
    ∷ 149 ∷ 150 ∷ 4 ∷ 152 ∷ 153 ∷ 154 ∷ 155 ∷ 20 ∷ 21 ∷ 158 ∷ 26 ∷ 32 ∷ 193 ∷ 194 ∷ 195 ∷ 196 ∷ 197
    ∷ 198 ∷ 199 ∷ 200 ∷ 201 ∷ 91 ∷ 46 ∷ 60 ∷ 40 ∷ 43 ∷ 33 ∷ 38 ∷ 202 ∷ 203 ∷ 204 ∷ 205 ∷ 206 ∷ 207
    ∷ 208 ∷ 209 ∷ 211 ∷ 93 ∷ 36 ∷ 42 ∷ 41 ∷ 59 ∷ 94 ∷ 45 ∷ 47 ∷ 212 ∷ 213 ∷ 214 ∷ 215 ∷ 216 ∷ 217
    ∷ 218 ∷ 219 ∷ 174 ∷ 44 ∷ 37 ∷ 95 ∷ 62 ∷ 63 ∷ 168 ∷ 182 ∷ 184 ∷ 185 ∷ 210 ∷ 186 ∷ 188 ∷ 190 ∷ 191
    ∷ 96 ∷ 58 ∷ 35 ∷ 64 ∷ 39 ∷ 61 ∷ 34 ∷ 181 ∷ 97 ∷ 98 ∷ 99 ∷ 100 ∷ 101 ∷ 102 ∷ 103 ∷ 104 ∷ 105
    ∷ 225 ∷ 226 ∷ 227 ∷ 228 ∷ 229 ∷ 230 ∷ 176 ∷ 106 ∷ 107 ∷ 108 ∷ 109 ∷ 110 ∷ 111 ∷ 112 ∷ 113 ∷ 114
    ∷ 231 ∷ 232 ∷ 233 ∷ 234 ∷ 235 ∷ 236 ∷ 180 ∷ 126 ∷ 115 ∷ 116 ∷ 117 ∷ 118 ∷ 119 ∷ 120 ∷ 121 ∷ 122
    ∷ 237 ∷ 238 ∷ 239 ∷ 240 ∷ 241 ∷ 243 ∷ 163 ∷ 220 ∷ 221 ∷ 222 ∷ 192 ∷ 223 ∷ 252 ∷ 253 ∷ 224 ∷ 254
    ∷ 242 ∷ 244 ∷ 245 ∷ 246 ∷ 247 ∷ 248 ∷ 123 ∷ 65 ∷ 66 ∷ 67 ∷ 68 ∷ 69 ∷ 70 ∷ 71 ∷ 72 ∷ 73 ∷ 173
    ∷ 249 ∷ 250 ∷ 251 ∷ 164 ∷ 175 ∷ 125 ∷ 74 ∷ 75 ∷ 76 ∷ 77 ∷ 78 ∷ 79 ∷ 80 ∷ 81 ∷ 82 ∷ 177 ∷ 189
    ∷ 124 ∷ 183 ∷ 162 ∷ 166 ∷ 92 ∷ 161 ∷ 83 ∷ 84 ∷ 85 ∷ 86 ∷ 87 ∷ 88 ∷ 89 ∷ 90 ∷ 178 ∷ 167 ∷ 255
    ∷ 170 ∷ 171 ∷ 172 ∷ 48 ∷ 49 ∷ 50 ∷ 51 ∷ 52 ∷ 53 ∷ 54 ∷ 55 ∷ 56 ∷ 57 ∷ 179 ∷ 169 ∷ 165 ∷ 160
    ∷ 187 ∷ 159 ∷ []
